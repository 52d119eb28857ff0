-- ===== src/Task/Json.antt =====
-- The JSON of requests and responses: serialize_request, deserialize_request, serialize_response
-- and deserialize_response of src/libsbox.cpp.
-- RapidJSON is the parameter `Rapidjson`. What the code writes between StartObject and EndObject is
-- the object with these members, in the order of the calls. `read` is the value that a Document
-- holds after it has parsed the text of a Writer, and `IsLawful` states what RapidJSON documents of
-- it. All failures of one function give the same message, so that an error carries nothing.
pub mod RoundTrip
use libsbox.Base.{
  ℕ, ◌≤◌, ◌<◌, ◌^◌, ◌-◌, ltb, ◌≡◌, ℤ, pos, negsuc, pos_part, neg_part, Bool, true, false, List, [],
  ◌∷◌, Option, none, some, text_eq, if◌then◌else◌, codes, Result, ok, err, ◌>>=◌, ◌>>◌, guard,
  or_fail,
}
use libsbox.Memory.{NulFree}
use libsbox.Task.{Task, BindRule, Stream}

-- What the calls of a Writer describe.
mutual
  pub data Json : Type 0 where
    string : List ℕ → Json
    int int64 : ℤ → Json
    bool : Bool → Json
    array : Elements → Json
    object : Members → Json

  pub data Elements : Type 0 where
    no_more : Elements
    element : Json → Elements → Elements

  pub data Members : Type 0 where
    end : Members
    member : List ℕ → Json → Members → Members

-- The first member of that name.
abbrev pub lookup : List ℕ → Members → Option Json
lookup key end = none
lookup key (member k j rest) = if text_eq k key then some j else lookup key rest

abbrev pub FitsInt : ℤ → Type 0
FitsInt n = (pos_part n < 2 ^ 31) × (neg_part n ≤ 2 ^ 31)

abbrev pub FitsInt64 : ℤ → Type 0
FitsInt64 n = (pos_part n < 2 ^ 63) × (neg_part n ≤ 2 ^ 63)

-- A getter gives `none` where the type test before it fails. `get_string` is the C string that
-- GetString points to.
pub record Rapidjson : Type 1 where
  pub Value : Type 0
  pub read : Json → Value
  pub is_object : Value → Bool
  pub is_null : Value → Bool
  pub find_member : Value → List ℕ → Option Value
  pub get_string : Value → Option (List ℕ)
  pub get_int : Value → Option ℤ
  pub get_int64 : Value → Option ℤ
  pub get_bool : Value → Option Bool
  pub get_array : Value → Option (List Value)

abbrev pub read_member : (J : Rapidjson) → Option Json → Option J.Value
read_member J none = none
read_member J (some j) = some (J.read j)

abbrev pub read_all : (J : Rapidjson) → Elements → List J.Value
read_all J no_more = []
read_all J (element j rest) = J.read j ∷ read_all J rest

pub record IsLawful (J : Rapidjson) : Type 0 where
  pub object-is_object : (ms : Members) → J.is_object (J.read (object ms)) ≡ true
  pub object-find_member :
      (ms : Members) (key : List ℕ)
      → J.find_member (J.read (object ms)) key ≡ read_member J (lookup key ms)
  pub string-is_null : (s : List ℕ) → J.is_null (J.read (string s)) ≡ false
  pub string-get_string : (s : List ℕ) → NulFree s → J.get_string (J.read (string s)) ≡ some s
  pub int-get_int : (n : ℤ) → FitsInt n → J.get_int (J.read (int n)) ≡ some n
  pub int64-get_int64 : (n : ℤ) → FitsInt64 n → J.get_int64 (J.read (int64 n)) ≡ some n
  pub bool-get_bool : (b : Bool) → J.get_bool (J.read (bool b)) ≡ some b
  pub array-get_array : (js : Elements) → J.get_array (J.read (array js)) ≡ some (read_all J js)

-- ARRAY(var, STRING(it))
abbrev pub string_array : List (List ℕ) → Elements
string_array [] = no_more
string_array (s ∷ rest) = element (string s) (string_array rest)

-- An int of 32 bits, as a number and by its bits.
abbrev pub int_of_bits : ℕ → ℤ
int_of_bits bits = if ltb bits (2 ^ 31) then pos bits else negsuc (2 ^ 32 - 1 - bits)

abbrev pub bits_of_int : ℤ → ℕ
bits_of_int (pos n) = n
bits_of_int (negsuc n) = 2 ^ 32 - 1 - n

-- KEY(k) and then the value, for each pair
abbrev pub members : List (List ℕ × Json) → Members
members [] = end
members ((k, j) ∷ rest) = member k j (members rest)

unfoldable pub serialize_bind : BindRule → Json
serialize_bind b = object (
    members (
      (codes "inside", string b.inside)
      ∷ (codes "outside", string b.outside)
      ∷ (codes "flags", int (int_of_bits b.flags))
      ∷ []))

-- ARRAY(binds_, it.serialize_request(writer))
unfoldable pub bind_array : List BindRule → Elements
bind_array [] = no_more
bind_array (b ∷ rest) = element (serialize_bind b) (bind_array rest)

unfoldable pub serialize_stream : Stream → Json
serialize_stream s = string s.filename

unfoldable pub serialize_request : Task → Json
serialize_request t = object (
    members (
      (codes "time_limit_ms", int64 t.time_limit_ms)
      ∷ (codes "wall_time_limit_ms", int64 t.wall_time_limit_ms)
      ∷ (codes "memory_limit_kb", int64 t.memory_limit_kb)
      ∷ (codes "fsize_limit_kb", int64 t.fsize_limit_kb)
      ∷ (codes "max_files", int t.max_files)
      ∷ (codes "max_threads", int t.max_threads)
      ∷ (codes "need_ipc", bool t.need_ipc)
      ∷ (codes "use_standard_binds", bool t.use_standard_binds)
      ∷ (codes "stdin", serialize_stream t.stdin)
      ∷ (codes "stdout", serialize_stream t.stdout)
      ∷ (codes "stderr", serialize_stream t.stderr)
      ∷ (codes "argv", array (string_array t.argv))
      ∷ (codes "env", array (string_array t.env))
      ∷ (codes "binds", array (bind_array t.binds))
      ∷ []))

unfoldable pub serialize_response : Task → Json
serialize_response t = object (
    members (
      (codes "time_usage_ms", int64 t.time_usage_ms)
      ∷ (codes "time_usage_sys_ms", int64 t.time_usage_sys_ms)
      ∷ (codes "time_usage_user_ms", int64 t.time_usage_user_ms)
      ∷ (codes "wall_time_usage_ms", int64 t.wall_time_usage_ms)
      ∷ (codes "memory_usage_kb", int64 t.memory_usage_kb)
      ∷ (codes "time_limit_exceeded", bool t.time_limit_exceeded)
      ∷ (codes "wall_time_limit_exceeded", bool t.wall_time_limit_exceeded)
      ∷ (codes "exited", bool t.exited)
      ∷ (codes "exit_code", int t.exit_code)
      ∷ (codes "signaled", bool t.signaled)
      ∷ (codes "term_signal", int t.term_signal)
      ∷ (codes "oom_killed", bool t.oom_killed)
      ∷ (codes "memory_limit_hit", bool t.memory_limit_hit)
      ∷ []))

-- The failure of a check, a `die` in a request and the returned Error in a response.
pub data JsonError : Type 0 where
  json_incorrect : JsonError

module _ (J : Rapidjson) where
  open J use {
    Value, is_object, is_null, find_member, get_string, get_int, get_int64, get_bool, get_array,
  }

  -- CHECK_MEMBER, and then the member
  abbrev pub member_of : Value → List ℕ → Result JsonError Value
  member_of value key = or_fail (find_member value key) json_incorrect

  -- GET_MEMBER
  abbrev pub get_member : {A : Type 0} → (Value → Option A) → Value → List ℕ → Result JsonError A
  get_member get value key = do m ← member_of value key; or_fail (get m) json_incorrect

  -- BindRule(value)
  unfoldable pub deserialize_bind : Value → Result JsonError BindRule
  deserialize_bind value = do
    guard (is_object value) json_incorrect
    inside ← get_member get_string value (codes "inside")
    outside ← get_member get_string value (codes "outside")
    flags ← get_member get_int value (codes "flags")
    ok (record { inside = inside; outside = outside; flags = bits_of_int flags })

  unfoldable pub deserialize_stream : Value → Result JsonError Stream
  deserialize_stream value = if is_null value then ok (record { filename = [] }) else (do
    filename ← or_fail (get_string value) json_incorrect
    ok (record { filename = filename }))

  -- The loops over argv and env.
  unfoldable pub get_strings : List Value → Result JsonError (List (List ℕ))
  get_strings [] = ok []
  get_strings (v ∷ rest) = do
    s ← or_fail (get_string v) json_incorrect
    ss ← get_strings rest
    ok (s ∷ ss)

  -- The loop over binds; the constructor checks the type again.
  unfoldable pub get_binds : List Value → Result JsonError (List BindRule)
  get_binds [] = ok []
  get_binds (v ∷ rest) = do
    guard (is_object v) json_incorrect
    b ← deserialize_bind v
    bs ← get_binds rest
    ok (b ∷ bs)

  unfoldable pub deserialize_request : Task → Value → Result JsonError Task
  deserialize_request t value = do
    guard (is_object value) json_incorrect
    time_limit_ms ← get_member get_int64 value (codes "time_limit_ms")
    wall_time_limit_ms ← get_member get_int64 value (codes "wall_time_limit_ms")
    memory_limit_kb ← get_member get_int64 value (codes "memory_limit_kb")
    fsize_limit_kb ← get_member get_int64 value (codes "fsize_limit_kb")
    max_files ← get_member get_int value (codes "max_files")
    max_threads ← get_member get_int value (codes "max_threads")
    need_ipc ← get_member get_bool value (codes "need_ipc")
    use_standard_binds ← get_member get_bool value (codes "use_standard_binds")
    stdin_value ← member_of value (codes "stdin")
    stdin ← deserialize_stream stdin_value
    stdout_value ← member_of value (codes "stdout")
    stdout ← deserialize_stream stdout_value
    stderr_value ← member_of value (codes "stderr")
    stderr ← deserialize_stream stderr_value
    argv_values ← get_member get_array value (codes "argv")
    argv ← get_strings argv_values
    env_values ← get_member get_array value (codes "env")
    env ← get_strings env_values
    binds_values ← get_member get_array value (codes "binds")
    binds ← get_binds binds_values
    ok (record t {
      time_limit_ms = time_limit_ms;
      wall_time_limit_ms = wall_time_limit_ms;
      memory_limit_kb = memory_limit_kb;
      fsize_limit_kb = fsize_limit_kb;
      max_files = max_files;
      max_threads = max_threads;
      need_ipc = need_ipc;
      use_standard_binds = use_standard_binds;
      stdin = stdin;
      stdout = stdout;
      stderr = stderr;
      argv = argv;
      env = env;
      binds = binds;
    })

  -- The task, if no check fails; with an Error the fields before the failed check are written too,
  -- and the client gets no result.
  unfoldable pub deserialize_response : Task → Value → Result JsonError Task
  deserialize_response t value = do
    guard (is_object value) json_incorrect
    time_usage_ms ← get_member get_int64 value (codes "time_usage_ms")
    time_usage_sys_ms ← get_member get_int64 value (codes "time_usage_sys_ms")
    time_usage_user_ms ← get_member get_int64 value (codes "time_usage_user_ms")
    wall_time_usage_ms ← get_member get_int64 value (codes "wall_time_usage_ms")
    memory_usage_kb ← get_member get_int64 value (codes "memory_usage_kb")
    time_limit_exceeded ← get_member get_bool value (codes "time_limit_exceeded")
    wall_time_limit_exceeded ← get_member get_bool value (codes "wall_time_limit_exceeded")
    exited ← get_member get_bool value (codes "exited")
    exit_code ← get_member get_int value (codes "exit_code")
    signaled ← get_member get_bool value (codes "signaled")
    term_signal ← get_member get_int value (codes "term_signal")
    oom_killed ← get_member get_bool value (codes "oom_killed")
    memory_limit_hit ← get_member get_bool value (codes "memory_limit_hit")
    ok (record t {
      time_usage_ms = time_usage_ms;
      time_usage_sys_ms = time_usage_sys_ms;
      time_usage_user_ms = time_usage_user_ms;
      wall_time_usage_ms = wall_time_usage_ms;
      memory_usage_kb = memory_usage_kb;
      time_limit_exceeded = time_limit_exceeded;
      wall_time_limit_exceeded = wall_time_limit_exceeded;
      exited = exited;
      exit_code = exit_code;
      signaled = signaled;
      term_signal = term_signal;
      oom_killed = oom_killed;
      memory_limit_hit = memory_limit_hit;
    })
