-- ===== src/Contracts.antt =====
-- app/contracts/messages.py: the messages, their validation, and kombu's envelope.
pub mod Messages
pub mod Literals
pub mod Validate
pub mod Envelope
pub mod Parse
pub mod Constraints
pub mod Unwrap
pub mod Formats
pub mod Wire
