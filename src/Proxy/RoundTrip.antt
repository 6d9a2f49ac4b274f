-- ===== src/Proxy/RoundTrip.antt =====
-- Headers as the PROXY protocol's specification writes them, and that the parser reads them back.
pub mod Line
pub mod Binary
