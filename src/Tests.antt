-- ===== src/Tests.antt =====
-- Concrete inputs, and the theorems applied to them.
pub mod Samples
mod ZoneTests
mod DnsTests
mod LogTests
mod BlockTests
mod AccessTests
mod RateTests
mod StoreTests
mod FeedTests
mod CacheTests
mod DdnsTests
mod HandlerTests
mod AxfrTests
mod DhcpTests
