-- ===== src/Search.antt =====
-- The search server: 숙제#4/Server Code/search_server.c.
pub mod Sort
pub mod Data
pub mod Index
pub mod Load
pub mod Engine
pub mod Serving
pub mod Clients
