-- ===== src/Router.antt =====
-- The topic router: src/router.rs.
pub mod Maps
pub mod Trie
pub mod Match
pub mod Filter
pub mod Children
pub mod Others
pub mod Normal
pub mod Subscribed
pub mod Emptied
pub mod Shared
pub mod Unsubscribed
pub mod Removed
pub mod Registered
pub mod Undone
pub mod Delivered
mod Tests
