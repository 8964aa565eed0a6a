-- ===== src/Python.antt =====
-- What the source uses of Python itself: exceptions, texts, floats and the values that JSON
-- decodes to.
pub mod Exn
pub mod Text
pub mod Json
pub mod Calendar
