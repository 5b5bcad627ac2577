-- ===== src/MsgHierarchy.antt =====
-- dev/so_5_extra/msg_hierarchy/pub.hpp: messages that are delivered by the types they derive from.
pub mod Upcaster
pub mod Controller
pub mod Deliver
pub mod Demuxer
