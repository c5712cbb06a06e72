-- ===== src/Rpc.antt =====
-- The RPC library: rpc/marshall.h, rpc/rpc.h and rpc/rpc.cc.
pub mod Marshall
pub mod Unmarshall
pub mod Values
pub mod Written
pub mod Headers
pub mod Reading
pub mod Calls
pub mod Delivery
pub mod EndToEnd
pub mod Remote
pub mod ReplyWindow
pub mod AtMostOnce
pub mod Server
pub mod Duplicate
pub mod XidWindow
pub mod Acked
pub mod AckedSet
pub mod Client
pub mod Claims
pub mod Net
pub mod System
pub mod Timespec
pub mod Replies
pub mod Containers
pub mod ContainerTrips
pub mod MapTrips
mod Tests
mod ContainerTests
