-- ===== src/Task/Json/RoundTrip.antt =====
-- What a client serializes, the server reads back, and the other way round.
use libsbox.Base.{
  ℕ, ◌<◌, ◌^◌, ◌≡◌, refl, ap, ◌∙◌, arith, true, List, [], ◌∷◌, Option, some, Result, ok, ◌>>=◌,
}
use libsbox.Memory.{NulFree}
use libsbox.Task.{Task, BindRule, Stream}
use libsbox.Task.Json

abbrev pub AllNulFree : List (List ℕ) → Type 0
AllNulFree [] = Unit
AllNulFree (s ∷ rest) = NulFree s × AllNulFree rest

abbrev pub BindFits : BindRule → Type 0
BindFits b = NulFree b.inside × NulFree b.outside × (b.flags < 2 ^ 32)

abbrev pub AllBindsFit : List BindRule → Type 0
AllBindsFit [] = Unit
AllBindsFit (b ∷ rest) = BindFits b × AllBindsFit rest

-- The numbers are in the range of their C++ types, and no string has a NUL inside.
pub record RequestFits (t : Task) : Type 0 where
  pub time_limit_ms : Json.FitsInt64 t.time_limit_ms
  pub wall_time_limit_ms : Json.FitsInt64 t.wall_time_limit_ms
  pub memory_limit_kb : Json.FitsInt64 t.memory_limit_kb
  pub fsize_limit_kb : Json.FitsInt64 t.fsize_limit_kb
  pub max_files : Json.FitsInt t.max_files
  pub max_threads : Json.FitsInt t.max_threads
  pub stdin : NulFree t.stdin.filename
  pub stdout : NulFree t.stdout.filename
  pub stderr : NulFree t.stderr.filename
  pub argv : AllNulFree t.argv
  pub env : AllNulFree t.env
  pub binds : AllBindsFit t.binds

pub record ResponseFits (t : Task) : Type 0 where
  pub time_usage_ms : Json.FitsInt64 t.time_usage_ms
  pub time_usage_sys_ms : Json.FitsInt64 t.time_usage_sys_ms
  pub time_usage_user_ms : Json.FitsInt64 t.time_usage_user_ms
  pub wall_time_usage_ms : Json.FitsInt64 t.wall_time_usage_ms
  pub memory_usage_kb : Json.FitsInt64 t.memory_usage_kb
  pub exit_code : Json.FitsInt t.exit_code
  pub term_signal : Json.FitsInt t.term_signal

then_ok :
    {A B : Type 0} {m : Result Json.JsonError A} {a : A} (f : A → Result Json.JsonError B)
    {r : Result Json.JsonError B}
    → m ≡ ok a
    → f a ≡ r
    → (m >>= f) ≡ r
then_ok f e h = ap (λ m. m >>= f) e ∙ h

bits-int : (n : ℕ) → n < 2 ^ 32 → Json.bits_of_int (Json.int_of_bits n) ≡ n
bits-int n h = ground arith

int-FitsInt : (n : ℕ) → n < 2 ^ 32 → Json.FitsInt (Json.int_of_bits n)
int-FitsInt n h = ground arith

module _ (J : Json.Rapidjson) (lawful : Json.IsLawful J) where
  open J use {Value, read}

  member_ok :
      (ms : Json.Members) (key : List ℕ) (j : Json.Json)
      → Json.lookup key ms ≡ some j
      → Json.member_of J (read (Json.object ms)) key ≡ ok (read j)
  member_ok ms key j e = rw (lawful.object-find_member ms key, e) refl

  get_ok :
      {A : Type 0} (get : Value → Option A) (ms : Json.Members) (key : List ℕ) (j : Json.Json)
      (a : A)
      → Json.lookup key ms ≡ some j
      → get (read j) ≡ some a
      → Json.get_member J get (read (Json.object ms)) key ≡ ok a
  get_ok get ms key j a e g = then_ok _ (member_ok ms key j e) (rw g refl)

  stream_ok :
      (s : Stream)
      → NulFree s.filename
      → Json.deserialize_stream J (read (Json.serialize_stream s)) ≡ ok s
  unfolding Json.deserialize_stream Json.serialize_stream
  stream_ok s free =
      rw (lawful.string-is_null s.filename, lawful.string-get_string s.filename free) refl

  strings_ok :
      (ss : List (List ℕ))
      → AllNulFree ss
      → Json.get_strings J (Json.read_all J (Json.string_array ss)) ≡ ok ss
  unfolding Json.get_strings
  strings_ok [] free = refl
  strings_ok (s ∷ ss) free = rw (lawful.string-get_string s free.0, strings_ok ss free.1) refl

  bind_ok :
      (b : BindRule) → BindFits b → Json.deserialize_bind J (read (Json.serialize_bind b)) ≡ ok b
  unfolding Json.deserialize_bind Json.serialize_bind
  bind_ok b (inside, outside, flags) = rw (lawful.object-is_object) (
      then_ok _ (get_ok J.get_string _ _ _ _ refl (lawful.string-get_string b.inside inside)) (
        then_ok _ (get_ok J.get_string _ _ _ _ refl (lawful.string-get_string b.outside outside)) (
          then_ok _
            (get_ok J.get_int _ _ _ _ refl (lawful.int-get_int _ (int-FitsInt b.flags flags)))
            (rw (bits-int b.flags flags) refl))))

  bind-is_object : (b : BindRule) → J.is_object (read (Json.serialize_bind b)) ≡ true
  unfolding Json.serialize_bind
  bind-is_object b = lawful.object-is_object _

  binds_ok :
      (bs : List BindRule)
      → AllBindsFit bs
      → Json.get_binds J (Json.read_all J (Json.bind_array bs)) ≡ ok bs
  unfolding Json.get_binds Json.bind_array
  binds_ok [] fits = refl
  binds_ok (b ∷ bs) fits = rw (bind-is_object b, bind_ok b fits.0, binds_ok bs fits.1) refl

  -- Reading a serialized request gives back every parameter of the task and keeps the other
  -- fields, for numbers in their C++ range and strings without NUL.
  pub deserialize-serialize_request :
      (t s : Task)
      → RequestFits t
      → Json.deserialize_request J s (read (Json.serialize_request t))
        ≡ ok (record s {
          time_limit_ms = t.time_limit_ms;
          wall_time_limit_ms = t.wall_time_limit_ms;
          memory_limit_kb = t.memory_limit_kb;
          fsize_limit_kb = t.fsize_limit_kb;
          max_files = t.max_files;
          max_threads = t.max_threads;
          need_ipc = t.need_ipc;
          use_standard_binds = t.use_standard_binds;
          stdin = t.stdin;
          stdout = t.stdout;
          stderr = t.stderr;
          argv = t.argv;
          env = t.env;
          binds = t.binds;
        })
  unfolding Json.deserialize_request Json.serialize_request
  deserialize-serialize_request t s fits = rw (lawful.object-is_object) (
      then_ok _
        (get_ok J.get_int64 _ _ _ _ refl
          (lawful.int64-get_int64 t.time_limit_ms fits.time_limit_ms))
        (then_ok _
          (get_ok J.get_int64 _ _ _ _ refl
            (lawful.int64-get_int64 t.wall_time_limit_ms fits.wall_time_limit_ms))
          (then_ok _
            (get_ok J.get_int64 _ _ _ _ refl
              (lawful.int64-get_int64 t.memory_limit_kb fits.memory_limit_kb))
            (then_ok _
              (get_ok J.get_int64 _ _ _ _ refl
                (lawful.int64-get_int64 t.fsize_limit_kb fits.fsize_limit_kb))
              (then_ok _
                (get_ok J.get_int _ _ _ _ refl (lawful.int-get_int t.max_files fits.max_files))
                (then_ok _
                  (get_ok J.get_int _ _ _ _ refl
                    (lawful.int-get_int t.max_threads fits.max_threads))
                  (then_ok _ (get_ok J.get_bool _ _ _ _ refl (lawful.bool-get_bool t.need_ipc)) (
                    then_ok _
                      (get_ok J.get_bool _ _ _ _ refl (lawful.bool-get_bool t.use_standard_binds))
                      (then_ok _ (member_ok _ _ _ refl) (
                        then_ok _ (stream_ok t.stdin fits.stdin) (
                          then_ok _ (member_ok _ _ _ refl) (
                            then_ok _ (stream_ok t.stdout fits.stdout) (
                              then_ok _ (member_ok _ _ _ refl) (
                                then_ok _ (stream_ok t.stderr fits.stderr) (
                                  then_ok _
                                    (get_ok J.get_array _ _ _ _ refl (lawful.array-get_array _))
                                    (then_ok _ (strings_ok t.argv fits.argv) (
                                      then_ok _
                                        (get_ok J.get_array _ _ _ _ refl (lawful.array-get_array _))
                                        (then_ok _ (strings_ok t.env fits.env) (
                                          then_ok _
                                            (get_ok J.get_array _ _ _ _ refl
                                              (lawful.array-get_array _))
                                            (then_ok _ (binds_ok t.binds fits.binds)
                                              (refl)))))))))))))))))))))

  -- Reading a serialized response gives back every result of the task and keeps the client's
  -- parameters, for numbers in their C++ range.
  pub deserialize-serialize_response :
      (t s : Task)
      → ResponseFits t
      → Json.deserialize_response J s (read (Json.serialize_response t))
        ≡ ok (record s {
          time_usage_ms = t.time_usage_ms;
          time_usage_sys_ms = t.time_usage_sys_ms;
          time_usage_user_ms = t.time_usage_user_ms;
          wall_time_usage_ms = t.wall_time_usage_ms;
          memory_usage_kb = t.memory_usage_kb;
          time_limit_exceeded = t.time_limit_exceeded;
          wall_time_limit_exceeded = t.wall_time_limit_exceeded;
          exited = t.exited;
          exit_code = t.exit_code;
          signaled = t.signaled;
          term_signal = t.term_signal;
          oom_killed = t.oom_killed;
          memory_limit_hit = t.memory_limit_hit;
        })
  unfolding Json.deserialize_response Json.serialize_response
  deserialize-serialize_response t s fits = rw (lawful.object-is_object) (
      then_ok _
        (get_ok J.get_int64 _ _ _ _ refl
          (lawful.int64-get_int64 t.time_usage_ms fits.time_usage_ms))
        (then_ok _
          (get_ok J.get_int64 _ _ _ _ refl
            (lawful.int64-get_int64 t.time_usage_sys_ms fits.time_usage_sys_ms))
          (then_ok _
            (get_ok J.get_int64 _ _ _ _ refl
              (lawful.int64-get_int64 t.time_usage_user_ms fits.time_usage_user_ms))
            (then_ok _
              (get_ok J.get_int64 _ _ _ _ refl
                (lawful.int64-get_int64 t.wall_time_usage_ms fits.wall_time_usage_ms))
              (then_ok _
                (get_ok J.get_int64 _ _ _ _ refl
                  (lawful.int64-get_int64 t.memory_usage_kb fits.memory_usage_kb))
                (then_ok _
                  (get_ok J.get_bool _ _ _ _ refl (lawful.bool-get_bool t.time_limit_exceeded))
                  (then_ok _
                    (get_ok J.get_bool _ _ _ _ refl
                      (lawful.bool-get_bool t.wall_time_limit_exceeded))
                    (then_ok _ (get_ok J.get_bool _ _ _ _ refl (lawful.bool-get_bool t.exited)) (
                      then_ok _
                        (get_ok J.get_int _ _ _ _ refl
                          (lawful.int-get_int t.exit_code fits.exit_code))
                        (then_ok _
                          (get_ok J.get_bool _ _ _ _ refl (lawful.bool-get_bool t.signaled))
                          (then_ok _
                            (get_ok J.get_int _ _ _ _ refl
                              (lawful.int-get_int t.term_signal fits.term_signal))
                            (then_ok _
                              (get_ok J.get_bool _ _ _ _ refl (lawful.bool-get_bool t.oom_killed))
                              (then_ok _
                                (get_ok J.get_bool _ _ _ _ refl
                                  (lawful.bool-get_bool t.memory_limit_hit))
                                (refl))))))))))))))
