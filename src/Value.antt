-- ===== src/Value.antt =====
-- src/lua/lua_types.h: the values that cross between Lua and C++, errors and results; and the
-- location capture of src/lua/lua_runtime.cc (CollectStackTrace, CaptureLuaLocation).
use bernardx.Base.{
  ℕ, ℤ, pos, negsuc, Bool, true, false, ◌&&◌, ◌==◌, List, [], ◌∷◌, ◌++◌, Bytes, codes, is_empty,
  to_string, if◌then◌else◌,
}

-- LuaValue. A double is its bit pattern, and a reference is a registry slot with its Lua type;
-- neither is computed with.
pub data LuaValue : Type 0 where
  nil : LuaValue
  boolean : Bool → LuaValue
  integer : ℤ → LuaValue
  number : ℕ → LuaValue
  string : Bytes → LuaValue
  ref : ℕ → ℕ → LuaValue

-- LUA_OK, LUA_YIELD, and the error codes 2 to 5.
pub data Status : Type 0 where
  lua_ok : Status
  lua_yield : Status
  lua_error : ℕ → Status

abbrev pub lua_errrun : Status
lua_errrun = lua_error 2

-- std::to_string of a status code.
unfoldable pub status_code : Status → ℕ
status_code lua_ok = 0
status_code lua_yield = 1
status_code (lua_error n) = n

-- ScriptErrorDetail
pub record ScriptErrorDetail : Type 0 where
  pub source : Bytes
  pub line : ℤ
  pub message : Bytes
  pub stack_trace : Bytes
  pub raised_in_c : Bool

abbrev pub no_detail : ScriptErrorDetail
no_detail = record {
  source = [];
  line = negsuc 0;
  message = [];
  stack_trace = [];
  raised_in_c = false;
}

-- ScriptResult
pub record ScriptResult : Type 0 where
  pub status : Status
  pub values : List LuaValue
  pub error : Bytes
  pub error_detail : ScriptErrorDetail

-- What lua_getinfo "Sl" says of one level of a stack: `what == "C"`, source, currentline.
pub record Frame : Type 0 where
  pub in_c : Bool
  pub source : Bytes
  pub currentline : ℤ

unfoldable pub starts_with_eq : Bytes → Bool
starts_with_eq [] = false
starts_with_eq (c ∷ s) = c == b'='

abbrev is_neg : ℤ → Bool
is_neg (pos n) = false
is_neg (negsuc n) = true

abbrev place : Frame → Bytes
place f = f.source ++ (codes ":" ++ to_string f.currentline)

-- CollectStackTrace: outward from level 0, without the internal frames.
unfoldable pub trace_from : Bytes → List Frame → Bytes
unfolding starts_with_eq is_empty
trace_from trace [] = trace
trace_from trace (f ∷ fs) =
    trace_from
      (if starts_with_eq f.source && is_neg f.currentline
        then trace
        else if is_empty trace
        then place f
        else trace ++ (codes " -> " ++ place f))
      fs

unfoldable pub collect_stack_trace : List Frame → Bytes
unfolding trace_from
collect_stack_trace fs = trace_from [] fs

-- The first Lua frame: the loop of CaptureLuaLocation.
unfoldable pub locate : List Frame → ScriptErrorDetail → ScriptErrorDetail
locate [] d = d
locate (f ∷ fs) d =
    if f.in_c then locate fs d else record d { source = f.source; line = f.currentline }

abbrev level_zero : List Frame → ScriptErrorDetail → ScriptErrorDetail
level_zero [] d = d
level_zero (f ∷ fs) d = record d { raised_in_c = f.in_c }

-- CaptureLuaLocation
unfoldable pub capture_lua_location : List Frame → ScriptErrorDetail → ScriptErrorDetail
unfolding locate collect_stack_trace
capture_lua_location fs d =
    let d' = locate fs (level_zero fs d) in record d' { stack_trace = collect_stack_trace fs }

-- CaptureSuspensionDetail
unfoldable pub capture_suspension_detail : List Frame → Bytes → ScriptErrorDetail
unfolding capture_lua_location
capture_suspension_detail fs message =
    capture_lua_location fs (record no_detail { message = message })

-- What stands at the top of the stack of a failed coroutine: text, or an object of a named type.
pub data ErrorObject : Type 0 where
  text : Bytes → ErrorObject
  object : Bytes → ErrorObject

-- The message of CaptureErrorDetail and of finish_await_body.
unfoldable pub error_message : ErrorObject → Bytes
error_message (text s) = s
error_message (object type_name) = codes "error object (" ++ (type_name ++ codes ")")

-- CaptureErrorDetail
unfoldable pub capture_error_detail : List Frame → ErrorObject → ScriptErrorDetail
unfolding capture_lua_location error_message
capture_error_detail fs e = capture_lua_location fs (record no_detail { message = error_message e })
