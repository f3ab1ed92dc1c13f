-- ===== src/Tests.antt =====
-- Concrete runs of the modelled functions, and the theorems at concrete inputs.
mod Wire
mod Record
mod Message
pub mod Protect
mod Handshake
mod Send
mod Connection
mod Base64
mod Ffx
mod Asn1
pub mod Hkdf
pub mod KeySchedule
mod Finished
mod Ticket
mod Hello
mod Raw
mod Pem
mod Extensions
mod Buffer
