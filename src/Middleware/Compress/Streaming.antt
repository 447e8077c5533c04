-- ===== src/Middleware/Compress/Streaming.antt =====
-- internal/middleware/compress.go: what the client gets of a response, however it is written.
use mathlib.Core.List.{append_assoc, append-nil}
use l7rp.Base.{
  ℕ, ◌≡◌, refl, sym, ap, ◌∙◌, true, false, List, [], ◌∷◌, ◌++◌, Option, some, ◌==◌, if◌then◌else◌,
  arith, Str,
}
use l7rp.Middleware.Compress.{
  Settings, CompressingWriter, commit, write_header, write, flush, close, Call, writes_header,
  writes, flushes, changes, call, calls, fresh,
}
use l7rp.Http.{Header}

-- The bytes that the calls write.
abbrev pub written : List Call → Str
written [] = []
written (writes p ∷ xs) = p ++ written xs
written (writes_header code ∷ xs) = written xs
written (flushes ∷ xs) = written xs
written (changes f ∷ xs) = written xs

abbrev pub or_ok : ℕ → ℕ
or_ok code = if code == 0 then 200 else code

-- The status of a response: that of the first call that settles it.
abbrev pub first_status : List Call → ℕ
first_status [] = 200
first_status (writes_header code ∷ xs) = or_ok code
first_status (writes p ∷ xs) = 200
first_status (flushes ∷ xs) = 200
first_status (changes f ∷ xs) = first_status xs

module _ (set_up : Settings) where
  abbrev passed : CompressingWriter → Str
  passed c = c.below.sent ++ c.buf

  -- Nothing is buffered behind a commit, and nothing is settled before it.
  record IsInOrder (c : CompressingWriter) : Type 0 where
    drained : c.committed ≡ true → c.buf ≡ []
    unset : c.wrote_header ≡ false → c.committed ≡ false → c.status_code ≡ 0

  commit-IsInOrder : (c : CompressingWriter) → IsInOrder (commit set_up c)
  unfolding commit
  commit-IsInOrder c = record { drained = λ h. refl; unset = λ h k. cc }

  write_header-IsInOrder :
      (code : ℕ) (c : CompressingWriter) → IsInOrder c → IsInOrder (write_header set_up code c)
  unfolding write_header
  write_header-IsInOrder code c v = ground arith

  write-IsInOrder : (p : Str) (c : CompressingWriter) → IsInOrder c → IsInOrder (write set_up p c)
  unfolding write write_header commit
  write-IsInOrder p c v = ground arith

  flush-IsInOrder : (c : CompressingWriter) → IsInOrder c → IsInOrder (flush set_up c)
  unfolding flush commit
  flush-IsInOrder c v = ground arith

  passed-write :
      (p : Str) (c : CompressingWriter) → IsInOrder c → passed (write set_up p c) ≡ passed c ++ p
  unfolding write write_header commit
  passed-write p c v = ground (
    arith,
    v.drained,
    append_assoc c.below.sent c.buf p,
    append-nil (c.below.sent ++ c.buf ++ p),
    append-nil c.below.sent,
  )

  call-IsInOrder : (c : CompressingWriter) (x : Call) → IsInOrder c → IsInOrder (call set_up c x)
  unfolding call
  call-IsInOrder c (writes_header code) v = write_header-IsInOrder code c v
  call-IsInOrder c (writes p) v = write-IsInOrder p c v
  call-IsInOrder c flushes v = flush-IsInOrder c v
  call-IsInOrder c (changes f) v = record { drained = v.drained; unset = v.unset }

  passed-call :
      (c : CompressingWriter) (x : Call)
      → IsInOrder c
      → passed (call set_up c x) ≡ passed c ++ written (x ∷ [])
  unfolding call write_header flush commit
  passed-call c (writes_header code) v = ground (arith, append-nil (passed c))
  passed-call c (writes p) v = passed-write p c v ∙ ap (λ q. passed c ++ q) (sym (append-nil p))
  passed-call c flushes v = ground (arith, append-nil (passed c))
  passed-call c (changes f) v = sym (append-nil (passed c))

  written-cons : (x : Call) (xs : List Call) → written (x ∷ xs) ≡ written (x ∷ []) ++ written xs
  written-cons (writes_header code) xs = refl
  written-cons (writes p) xs = ap (λ q. q ++ written xs) (sym (append-nil p))
  written-cons flushes xs = refl
  written-cons (changes f) xs = refl

  calls-IsInOrder :
      (c : CompressingWriter) (xs : List Call) → IsInOrder c → IsInOrder (calls set_up c xs)
  unfolding calls
  calls-IsInOrder c [] v = v
  calls-IsInOrder c (x ∷ xs) v = calls-IsInOrder (call set_up c x) xs (call-IsInOrder c x v)

  passed-calls :
      (c : CompressingWriter) (xs : List Call)
      → IsInOrder c
      → passed (calls set_up c xs) ≡ passed c ++ written xs
  unfolding calls
  passed-calls c [] v = sym (append-nil (passed c))
  passed-calls c (x ∷ xs) v =
      passed-calls (call set_up c x) xs (call-IsInOrder c x v)
      ∙ ap (λ q. q ++ written xs) (passed-call c x v)
      ∙ append_assoc (passed c) (written (x ∷ [])) (written xs)
      ∙ ap (λ q. passed c ++ q) (sym (written-cons x xs))

  -- What the status will be, if `xs` are the calls to come.
  status_from : CompressingWriter → List Call → Option ℕ
  status_from c xs =
      if c.committed
      then c.below.status_code
      else some (if c.wrote_header then or_ok c.status_code else first_status xs)

  status_from-call :
      (c : CompressingWriter) (x : Call) (xs : List Call)
      → IsInOrder c
      → status_from (call set_up c x) xs ≡ status_from c (x ∷ xs)
  unfolding status_from call write write_header flush commit
  status_from-call c (writes_header code) xs v = ground arith
  status_from-call c (writes p) xs v = ground arith
  status_from-call c flushes xs v = ground arith
  status_from-call c (changes f) xs v = refl

  status_from-calls :
      (c : CompressingWriter) (xs : List Call)
      → IsInOrder c
      → status_from (calls set_up c xs) [] ≡ status_from c xs
  unfolding calls
  status_from-calls c [] v = refl
  status_from-calls c (x ∷ xs) v =
      status_from-calls (call set_up c x) xs (call-IsInOrder c x v) ∙ status_from-call c x xs v

  sent-close :
      (c : CompressingWriter)
      → IsInOrder c
      → ((close set_up c).below.sent ≡ passed c)
        × ((close set_up c).below.status_code ≡ status_from c [])
  unfolding close commit status_from
  sent-close c v = ground (arith, append-nil c.below.sent)

-- However the next handler writes its response, in whatever portions, with flushes and header
-- changes at any place, and whether or not it is compressed: when the writer is closed, exactly the
-- bytes written have gone to the writer below or its encoder, in their order, with none left in the
-- buffer, and the status is that of the first call which settles one, or 200.
pub response_kept :
    (set_up : Settings) (h : Header) (xs : List Call)
    → ((close set_up (calls set_up (fresh h) xs)).below.sent ≡ written xs)
      × ((close set_up (calls set_up (fresh h) xs)).below.status_code ≡ some (first_status xs))
unfolding status_from
response_kept set_up h xs =
    let start : IsInOrder set_up (fresh h) = record { drained = λ e. refl; unset = λ e k. refl } in
    let end =
      sent-close set_up (calls set_up (fresh h) xs) (calls-IsInOrder set_up (fresh h) xs start) in
    (
      end.0 ∙ passed-calls set_up (fresh h) xs start,
      end.1 ∙ status_from-calls set_up (fresh h) xs start,
    )
