-- ===== src/Tests/Toy.antt =====
-- A small Lua: its state counts the threads, every value on a stack is nil, and what a script does
-- when it is resumed is chosen by the test.
use bernardx.Base.{ℕ, ◌+◌, true, false, [], none, codes}
use bernardx.Value.{nil, Status, lua_ok, text}
use bernardx.Machine.{Lua, Run, returns, nil_slot, opened}
use bernardx.Timer
use bernardx.Pool
use bernardx.Runtime.{Runtime, Config}
use bernardx.Runtime.Executor.{CodeProvider}

abbrev pub toy : Status → (ℕ → ℕ → ℕ → Run ℕ) → Lua ℕ
toy st run = record {
  new_thread = λ s. (s, s + 100, s + 1);
  set_extraspace = λ co s. s;
  has_runtime = λ co s. true;
  close_thread = λ co s. s;
  settop_zero = λ co s. s;
  ref_top = λ co s. (7, s);
  unref = λ r s. s;
  status = λ co s. st;
  frames = λ co s. [];
  error_object = λ co s. text (codes "boom");
  pop = λ co s. s;
  push_ref = λ co r s. s;
  push_nil = λ co s. s;
  push_boolean = λ co b s. s;
  push_integer = λ co n s. s;
  push_number = λ co x s. s;
  push_string = λ co t s. s;
  slot = λ co i s. nil_slot;
  push_value = λ co i s. s;
  load_buffer = λ co chunk name s. (lua_ok, s);
  load_file = λ co name s. (lua_ok, s);
  loaded = λ name s. nil;
  set_loaded = λ name v s. s;
  set_field = λ v name w s. s;
  open_c_module = λ name s. (opened nil, s);
  open_library = λ name s. (1, nil, s);
  load_absolute = λ co name s. (returns [], s);
  ref_function = λ co s. (8, s);
  ref_trampoline = λ co h s. (9, s);
  close_libraries = λ s. s;
  clear_runtime = λ s. s;
  lua_resume = run;
}

abbrev pub no_config : Config
no_config = record {
  has_code_provider = false;
  has_executor = true;
  c_modules = [];
  libraries = [];
}

-- A runtime as the Builder leaves it.
abbrev pub fresh : Runtime ℕ
fresh = record {
  config = no_config;
  state = 0;
  timers = Timer.empty;
  pool = Pool.empty;
  pending = [];
  pins = [];
  pin_table = none;
  completions = [];
  done_awaits = [];
  unhandled_error = none;
  shutting_down = false;
  interrupted = false;
  paused = false;
  queue = [];
  clock = 0;
  settled = [];
}

abbrev pub no_provider : CodeProvider
no_provider = record { load_module = λ name. none; load_file = λ name. none }
