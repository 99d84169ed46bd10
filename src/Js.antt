-- ===== src/Js.antt =====
-- What the program uses of JavaScript: texts and values.
pub mod Text
pub mod Value
pub mod Path
pub mod Convert
pub mod Parse
