-- ===== src/Js.antt =====
-- The JavaScript values, objects, numbers, texts and exceptions that the client's code computes
-- with. This is the language, not code of the repository: the modules of the client import it.
pub mod Value
pub mod Fields
pub mod Json
pub mod Num
pub mod Result
pub mod Equal
pub mod IdSet
pub mod Text
