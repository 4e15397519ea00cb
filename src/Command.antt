-- ===== src/Command.antt =====
-- cmd/aws-iam-authenticator: the commands. The flags and the configuration file are read through
-- viper, which is a parameter; what a command prints to its user is left out.
pub mod Flags
pub mod Root
pub mod Token
pub mod Verify
pub mod Server
pub mod Init
pub mod Tests
