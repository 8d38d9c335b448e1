-- ===== src/Python.antt =====
-- The values of a dynamic language that cross the modelled code: what a JSON document or a Python
-- `dict[str, Any]` holds, truth, `or`, `str()`, and a `dict` in insertion order. `Runtime` stands
-- for the Unicode tables and the printer of containers that the interpreter brings.
pub mod Values
pub mod Decimal
pub mod Fields
pub mod Ascii
pub mod Errors
use aki_rag_middleware.Prelude.{suc, String, true, false}
use Values.{Value, null, bool, int, negative, float, str, list, dict, Runtime}
use Decimal.{decimal}
use Prim.Native.String.{◌++◌}

-- `str(value)`
unfoldable pub text_of : Runtime → Value → String
unfolding decimal
text_of py null = "None"
text_of py (bool true) = "True"
text_of py (bool false) = "False"
text_of py (int n) = decimal n
text_of py (negative n) = "-" ++ decimal (suc n)
text_of py (float digits) = digits
text_of py (str s) = s
text_of py (list items) = py.repr (list items)
text_of py (dict fields) = py.repr (dict fields)
