-- ===== src/Tests.antt =====
-- Runs of the definitions on concrete inputs, and each theorem at an input that meets its hypotheses.
mod Aad
mod Audit
mod Writer
mod Fpe
mod Masking
mod Permissions
mod Crypto
mod Codec
mod Services
mod Keys
mod KeyStore
mod TimeAttestation
mod Blocking
mod Sharing
mod Shares
mod EnvFile
mod Routes
