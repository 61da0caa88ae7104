-- ===== src/Dashboard.antt =====
-- `irctest/dashboard`: the pages that show the results of the tests.
pub mod Xml
pub mod Results
pub mod FileNames
pub mod Cells
pub mod Table
pub mod Pages
pub mod Index
mod Tests
