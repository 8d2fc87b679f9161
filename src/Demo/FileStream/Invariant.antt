-- ===== src/Demo/FileStream/Invariant.antt =====
-- The invariant of the file stream of the demo device, and that every handler keeps it.
use mathlib.Core.Path.{subst}
use edge_device_webrtc.Prelude.{
  inl, ◌∙◌, inr, sym, Bool-cases, some_injective, refl, not, false, ap, [], ◌≤◌, ◌≢◌, ◌∷◌, ◌||◌,
  ◌&&◌, true, none, is_none, if◌then◌else◌, arith, Text, ◌≡◌, ◌<◌, ◌+◌, ◌++◌, some, is_some, Option,
  Bool, All, List, ℕ,
}
use edge_device_webrtc.Demo.FileStream.{
  read_file, closing, writing, stream_file, opened_input, run_posted, open_file, give_up, accepting,
  Input, on_stream, file_stream_closed, do_stream_file, complete_operation, Operation, Job, FileApp,
}

abbrev pub Below : ℕ → Option ℕ → Type 0
Below n none = ⊥
Below n (some j) = j < n

abbrev pub Busy : FileApp → Type 0
Busy s = (is_some s.pending || is_some s.posted) ≡ true

-- The stream that `fileStream_` is, which has not been freed.
pub record Serves (k : ℕ) (s : FileApp) : Type 0 where
  pub streams : s.file_stream ≡ some k
  pub keeps_self : s.me ≡ true
  pub is_live : All (λ o. o ≢ some k) s.freed

pub record Inv (s : FileApp) : Type 0 where
  pub one_at_once : (is_some s.pending && is_some s.posted) ≡ false
  pub freed_before : All (Below s.opened) s.freed
  pub stream_before : (k : ℕ) → s.file_stream ≡ some k → k < s.opened
  pub serves : Busy s → (k : ℕ) × Serves k s

All-snoc :
    {A : Type 0} (P : A → Type 0) (xs : List A) (x : A) → All P xs → P x → All P (xs ++ x ∷ [])
All-snoc P [] x h p = (p, tt)
All-snoc P (y ∷ xs) x (hy, h) p = (hy, All-snoc P xs x h p)

All-weaken : (n m : ℕ) (xs : List (Option ℕ)) → n ≤ m → All (Below n) xs → All (Below m) xs
All-weaken n m [] h a = tt
All-weaken n m (none ∷ xs) h (b, a) = absurd b
All-weaken n m (some j ∷ xs) h (b, a) = (omega arith, All-weaken n m xs h a)

-- A number that is not yet used is none of those freed.
All-fresh : (n : ℕ) (xs : List (Option ℕ)) → All (Below n) xs → All (λ o. o ≢ some n) xs
All-fresh n [] a = tt
All-fresh n (none ∷ xs) (b, a) = absurd b
All-fresh n (some j ∷ xs) (b, a) =
    ((λ e. let same = some_injective e in omega arith), All-fresh n xs a)

some-apart : (k n : ℕ) → k < n → some n ≢ some k
some-apart k n h e = let same = some_injective e in omega arith

either_right : (a : Bool) {b : Bool} → b ≡ true → (a || b) ≡ true
either_right true h = refl
either_right false h = h

-- A stream that is opened is freed at once, or taken while nothing is to happen.
abbrev freed_now : FileApp → FileApp
freed_now s = record s { freed = s.freed ++ some s.opened ∷ []; opened = s.opened + 1 }

freed_now-Inv : (s : FileApp) → Inv s → Inv (freed_now s)
freed_now-Inv s h = record {
  one_at_once = h.one_at_once;
  freed_before =
      All-snoc (Below (s.opened + 1)) s.freed (some s.opened)
        (All-weaken s.opened (s.opened + 1) s.freed (omega arith) h.freed_before) (omega arith);
  stream_before = λ k e. let before = h.stream_before k e in omega arith;
  serves = λ busy.
      let (k, v) = h.serves busy in
      (
        k,
        record {
          streams = v.streams;
          keeps_self = v.keeps_self;
          is_live =
              All-snoc (λ o. o ≢ some k) s.freed (some s.opened) v.is_live
                (some-apart k s.opened (h.stream_before k v.streams));
        },
      );
}

abbrev taken_now : FileApp → FileApp
taken_now s = record s {
  file_stream = some s.opened;
  me = true;
  pending = some accepting;
  opened = s.opened + 1;
}

not_busy : (s : FileApp) → Inv s → s.file_stream ≡ none → is_some s.posted ≡ false
not_busy s h e = elim (Bool-cases (is_some s.posted)) [
  | inr idle ↦ idle
  | inl posted ↦
      let (k, v) = h.serves (either_right (is_some s.pending) posted) in
      let bad : none ≡ some k = sym e ∙ v.streams in absurd cc
]

taken_now-Inv : (s : FileApp) → Inv s → s.file_stream ≡ none → Inv (taken_now s)
taken_now-Inv s h e = record {
  one_at_once = not_busy s h e;
  freed_before = All-weaken s.opened (s.opened + 1) s.freed (omega arith) h.freed_before;
  stream_before = λ k same. let eq = some_injective same in omega arith;
  serves = λ busy. (
    s.opened,
    record {
      streams = refl;
      keeps_self = refl;
      is_live = All-fresh s.opened s.freed h.freed_before;
    },
  );
}

is_none-and : (o : Option ℕ) (a : Bool) → (is_none o && a) ≡ true → o ≡ none
is_none-and none a h = refl
is_none-and (some k) a h = absurd cc

opened-Inv :
    (b : Bool) (s : FileApp)
    → Inv s
    → (b ≡ true → s.file_stream ≡ none)
    → Inv (if b then taken_now s else freed_now s)
opened-Inv true s h e = taken_now-Inv s h (e refl)
opened-Inv false s h e = freed_now-Inv s h

pub on_stream-Inv : (allowed : Bool) (s : FileApp) → Inv s → Inv (on_stream allowed s)
unfolding on_stream
on_stream-Inv allowed s h =
    opened-Inv (is_none s.file_stream && allowed) s h (is_none-and s.file_stream allowed)

-- The operation is over and a job is posted, or the job has started an operation.
posted-Inv :
    (j : Job) (s : FileApp)
    → Inv s
    → is_some s.pending ≡ true
    → Inv (record s { pending = none; posted = some j })
posted-Inv j s h e = record {
  one_at_once = refl;
  freed_before = h.freed_before;
  stream_before = h.stream_before;
  serves = λ busy.
      let (k, v) = h.serves (ap (λ b. b || is_some s.posted) e) in
      (k, record { streams = v.streams; keeps_self = v.keeps_self; is_live = v.is_live });
}

started-Inv :
    (o : Operation) (i : Input) (ws : List (Option ℕ × Text)) (s : FileApp)
    → Inv s
    → is_some s.posted ≡ true
    → Inv (record s { pending = some o; posted = none; input = i; written = ws })
started-Inv o i ws s h e = record {
  one_at_once = refl;
  freed_before = h.freed_before;
  stream_before = h.stream_before;
  serves = λ busy.
      let (k, v) = h.serves (either_right (is_some s.pending) e) in
      (k, record { streams = v.streams; keeps_self = v.keeps_self; is_live = v.is_live });
}

neither : (a b : Bool) → (a || b) ≡ false → (a && b) ≡ false
neither false b h = refl
neither true b h = absurd cc

-- A state in which nothing is to happen.
pub over-Inv :
    (s : FileApp)
    → (is_some s.pending || is_some s.posted) ≡ false
    → All (Below s.opened) s.freed
    → ((k : ℕ) → s.file_stream ≡ some k → k < s.opened)
    → Inv s
over-Inv s over hf hs = record {
  one_at_once = neither (is_some s.pending) (is_some s.posted) over;
  freed_before = hf;
  stream_before = hs;
  serves = λ busy. absurd (let bad : true ≡ false = sym busy ∙ over in cc);
}

alone : (a b : Bool) → (a && b) ≡ false → a ≡ true → b ≡ false
alone true b h e = h
alone false b h e = absurd cc

file_stream_closed-Inv :
    (ok : Bool) (s : FileApp) → Inv s → is_some s.pending ≡ true → Inv (file_stream_closed ok s)
unfolding file_stream_closed
file_stream_closed-Inv false s h e = posted-Inv give_up s h e
file_stream_closed-Inv true s h e =
    let (k, v) = h.serves (ap (λ b. b || is_some s.posted) e) in
    over-Inv (record s { pending = none; freed = s.freed ++ s.file_stream ∷ [] })
      (alone (is_some s.pending) (is_some s.posted) h.one_at_once e)
      (All-snoc (Below s.opened) s.freed s.file_stream h.freed_before
        (subst (Below s.opened) (sym v.streams) (h.stream_before k v.streams)))
      h.stream_before

pub complete_operation-Inv :
    (p : Option Operation) (ok : Bool) (s : FileApp)
    → Inv s
    → s.pending ≡ p
    → Inv (complete_operation p ok s)
unfolding complete_operation
complete_operation-Inv none ok s h e = h
complete_operation-Inv (some accepting) ok s h e =
    posted-Inv (if ok then open_file else give_up) s h (ap is_some e)
complete_operation-Inv (some writing) ok s h e =
    posted-Inv (if ok then stream_file else give_up) s h (ap is_some e)
complete_operation-Inv (some closing) ok s h e = file_stream_closed-Inv ok s h (ap is_some e)

if-Inv : (b : Bool) {s t : FileApp} → Inv s → Inv t → Inv (if b then s else t)
if-Inv true h k = h
if-Inv false h k = k

do_stream_file-Inv :
    (s : FileApp) (i : Input)
    → Inv s
    → is_some s.posted ≡ true
    → Inv (do_stream_file (record s { posted = none; input = i }))
unfolding do_stream_file
do_stream_file-Inv s i h e =
    if-Inv (not i.eof)
      (started-Inv writing (read_file i).1 (s.written ++ (s.file_stream, (read_file i).0) ∷ []) s h
        e)
      (started-Inv closing i s.written s h e)

alone_right : (a b : Bool) → (a && b) ≡ false → b ≡ true → a ≡ false
alone_right true b h e = absurd cc
alone_right false b h e = refl

module _ (file : Option Text) where
  pub run_posted-Inv :
      (j : Option Job) (s : FileApp) → Inv s → s.posted ≡ j → Inv (run_posted file j s)
  unfolding run_posted
  run_posted-Inv none s h e = h
  run_posted-Inv (some open_file) s h e = do_stream_file-Inv s (opened_input file) h (ap is_some e)
  run_posted-Inv (some stream_file) s h e = do_stream_file-Inv s s.input h (ap is_some e)
  run_posted-Inv (some give_up) s h e =
      over-Inv (record s { posted = none; file_stream = none; me = false })
        (ap (λ b. b || false)
          (alone_right (is_some s.pending) (is_some s.posted) h.one_at_once (ap is_some e)))
        h.freed_before (λ k bad. absurd cc)
