-- ===== src/Conf.antt =====
-- types/conf.go: the configuration of multus and of its delegates.
pub mod Json
pub mod Decoder
pub mod Delegates
pub mod Loading
pub mod Injection
pub mod Ready
pub mod Status
pub mod Noted
