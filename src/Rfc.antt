-- ===== src/Rfc.antt =====
-- src/rfc and include/boost/http_proto/rfc: the rules of the HTTP grammar that the metadata needs.
pub mod Chars
pub mod List
pub mod QuotedToken
pub mod TransferEncoding
pub mod Upgrade
