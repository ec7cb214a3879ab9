-- ===== src/Ext.antt =====
-- src/endpoint/ext.rs: the methods of `EndpointExt` that combine endpoints.
pub mod And
pub mod Or
pub mod OrStrict
pub mod Map
pub mod Future
pub mod Inside
