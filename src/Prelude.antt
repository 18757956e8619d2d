-- ===== src/Prelude.antt =====
-- What the models of all the components share: library names, Boolean tests, lists, integers and
-- the order and printing of texts.
pub mod Tests
pub mod Lists
pub mod Base
pub mod Int
pub mod Text
pub mod Dict
pub mod Bytes
pub mod Uuid
pub mod Words
