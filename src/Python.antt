-- ===== src/Python.antt =====
-- What the program uses of Python itself: values with `==` and `str`, dicts, sorting and exceptions.
pub mod Dict
pub mod Int
pub mod Value
pub mod Result
pub mod Text
pub mod Sort
