-- ===== src/Remote/GDrive/Blocks.antt =====
-- src/remote/gdrive.rs: what the stream of a large upload sends and accounts for.
use syncgdrive.Engine.Bandwidth as Bandwidth
use mathlib.Core.Path.{subst}
use syncgdrive.Base.{
  ap, sym, Option, none, some, Bool, ◌⊎◌, Act, Result-cases, map, true, Result, err, Error,
  Option-cases, pure, ℕ, ◌+◌, ◌%◌, false, ltb, Bool-cases, length, length-append, List, [], ◌∷◌,
  ◌++◌, is_empty, All, ok, arith, bind-done, ◌>>=◌, ◌≡◌, refl, ◌∙◌, inl, inr,
}
use syncgdrive.Engine.Progress.{record_bytes, fetch_add, u64_mod}
use syncgdrive.Remote.GDrive.{Service}
use syncgdrive.Remote.GDrive.Uploads.{Upload, throttle, report_bytes, account, stream_blocks}

-- The bytes of all blocks.
abbrev pub concat : List (List ℕ) → List ℕ
concat [] = []
concat (b ∷ bs) = b ++ concat bs

total_of :
    (n m k : ℕ) (xs ys : List ℕ)
    → m ≡ fetch_add n (length xs)
    → k % u64_mod ≡ (m + length ys) % u64_mod
    → k % u64_mod ≡ (n + length (xs ++ ys)) % u64_mod
unfolding fetch_add
total_of n m k xs ys e h = omega (arith, e, h, length-append xs ys)

module _ {J W : Type 0} (service : Service J W) where
  -- The tracker has counted these blocks.
  abbrev pub Counted : List (List ℕ) → Upload W → Upload W → Type 0
  Counted blocks s t =
      t.1.sent_bytes % u64_mod ≡ (s.1.sent_bytes + length (concat blocks)) % u64_mod

  -- How the stream of some reads ends.
  pub data Streamed (s : Upload W)
      : List (Result (List ℕ)) → Result (List (List ℕ)) × Upload W → Type 0 where
    -- Every block has been read and sent.
    whole :
        (blocks : List (List ℕ)) (t : Upload W)
        → Counted blocks s t
        → Streamed s (map ok blocks) (ok blocks, t)
    -- A read failed, behind some blocks.
    broken :
        (blocks : List (List ℕ)) (e : Error) (reads : List (Result (List ℕ))) (t : Upload W)
        → Counted blocks s t
        → Streamed s (map ok blocks ++ err e ∷ reads) (err e, t)
    -- Under a limit, the permission for the next block has not come.
    waiting :
        (blocks : List (List ℕ)) (reads : List (Result (List ℕ))) (t : Upload W)
        → ltb 0 service.config.upload_limit_kbps ≡ true
        → Counted blocks s t
        → Streamed s (map ok blocks ++ reads) (err [], t)

  -- A block is accounted for, or waits for its permission.
  data Accounted (block : List ℕ) (s : Upload W) : Result (Unit {0}) × Upload W → Type 0 where
    counted :
        (t : Upload W)
        → t.1.sent_bytes ≡ fetch_add s.1.sent_bytes (length block)
        → Accounted block s (ok tt, t)
    stopped :
        (t : Upload W)
        → ltb 0 service.config.upload_limit_kbps ≡ true
        → t.1.sent_bytes ≡ s.1.sent_bytes
        → Accounted block s (err [], t)

  bind-err :
      {A B : Type 0} (m : Act (Upload W) A) (f : A → Act (Upload W) B) (s t : Upload W) (e : Error)
      → m s ≡ (err e, t)
      → (m >>= f) s ≡ (err e, t)
  unfolding ◌>>=◌
  bind-err m f s t e h = ap (λ r. elim r.0 [ ok a ↦ f a r.1 | err x ↦ (err x, r.1) ]) h

  abbrev answer : Option (List ℕ) → Result (Unit {0})
  answer none = err []
  answer (some left) = ok tt

  -- The permission has come, or not by the last reading.
  throttle-cases :
      (n : ℕ) (s : Upload W)
      → (throttle service n s ≡ (ok tt, (throttle service n s).1))
        ⊎ (throttle service n s ≡ (err [], (throttle service n s).1))
  unfolding throttle
  throttle-cases n s =
      elim (Option-cases (Bandwidth.acquire s.0.limiter n (service.readings s.0.clock)).0) [
        | inl never ↦ inr (ap (λ o. (answer o, (throttle service n s).1)) never)
        | inr (left, granted) ↦ inl (ap (λ o. (answer o, (throttle service n s).1)) granted)
      ]

  account-limited :
      (block : List ℕ) (s : Upload W)
      → ltb 0 service.config.upload_limit_kbps ≡ true
      → account service block s
        ≡ (throttle service (length block) >>= λ _. report_bytes service (length block)) s
  unfolding account
  account-limited block s limited = rw (account, limited) refl

  account-Accounted : (block : List ℕ) (s : Upload W) → Accounted block s (account service block s)
  unfolding account throttle report_bytes record_bytes ◌>>=◌
  account-Accounted block s = elim (Bool-cases (ltb 0 service.config.upload_limit_kbps)) [
    | inr free ↦ rw (account, free) (counted _ refl)
    | inl limited ↦
        let t = (throttle service (length block) s).1 in
        elim (throttle-cases (length block) s) [
          | inr never ↦
              subst (Accounted block s)
                (sym (
                  account-limited block s limited
                  ∙ bind-err (throttle service (length block))
                      (λ _. report_bytes service (length block)) s t [] never))
                (stopped t limited refl)
          | inl granted ↦
              subst (Accounted block s)
                (sym (
                  account-limited block s limited
                  ∙ bind-done (throttle service (length block))
                      (λ _. report_bytes service (length block)) s tt t granted))
                (counted (report_bytes service (length block) t).1 refl)
        ]
  ]

  -- The end of the reads: a block of no byte.
  abbrev pub is_end : Result (List ℕ) → Bool
  is_end (ok block) = is_empty block
  is_end (err e) = false

  abbrev cons_result :
      List ℕ → Result (List (List ℕ)) × Upload W → Result (List (List ℕ)) × Upload W
  cons_result block (r, u) = (elim r [ ok rest ↦ ok (block ∷ rest) | err e ↦ err e ], u)

  bind-cons_result :
      (block : List ℕ) (m : Act (Upload W) (List (List ℕ))) (t : Upload W)
      → (m >>= λ rest. pure (block ∷ rest)) t ≡ cons_result block (m t)
  unfolding ◌>>=◌
  bind-cons_result block m t = elim (Result-cases (m t).0) [
    | inl (rest, e) ↦ rw (◌>>=◌, e) refl
    | inr (x, e) ↦ rw (◌>>=◌, e) refl
  ]

  Streamed-cons :
      (block : List ℕ) (reads : List (Result (List ℕ))) (s t : Upload W)
      (x : Result (List (List ℕ)) × Upload W)
      → t.1.sent_bytes ≡ fetch_add s.1.sent_bytes (length block)
      → Streamed t reads x
      → Streamed s (ok block ∷ reads) (cons_result block x)
  Streamed-cons block _ s t _ sent (whole blocks u count) =
      whole (block ∷ blocks) u (total_of _ _ _ block (concat blocks) sent count)
  Streamed-cons block _ s t _ sent (broken blocks e reads u count) =
      broken (block ∷ blocks) e reads u (total_of _ _ _ block (concat blocks) sent count)
  Streamed-cons block _ s t _ sent (waiting blocks reads u limited count) =
      waiting (block ∷ blocks) reads u limited (total_of _ _ _ block (concat blocks) sent count)

  -- The stream from a block on, from what becomes of the block and what the rest does.
  block-Streamed :
      (block : List ℕ) (reads : List (Result (List ℕ))) (s : Upload W)
      → ((t : Upload W) → Streamed t reads (stream_blocks service reads t))
      → (x : Result (Unit {0}) × Upload W) → account service block s ≡ x
      → Accounted block s x
      → Streamed s (ok block ∷ reads) (
          (account service block >>= λ _.
          stream_blocks service reads >>= λ rest. pure (block ∷ rest))
            s)
  block-Streamed block reads s later _ e (counted t sent) =
      rw
        (bind-done (account service block)
            (λ _. stream_blocks service reads >>= λ rest. pure (block ∷ rest)) s tt t e
          ∙ bind-cons_result block (stream_blocks service reads) t)
        (Streamed-cons block reads s t _ sent (later t))
  block-Streamed block reads s later _ e (stopped t limited sent) =
      rw
        (bind-err (account service block)
          (λ _. stream_blocks service reads >>= λ rest. pure (block ∷ rest)) s t [] e)
        (waiting [] (ok block ∷ reads) t limited (omega (arith, sent)))

  -- The stream of a large upload, where no read but the last comes back with nothing. Either every
  -- block that was read is sent, in order; or a read failed, and the stream breaks off with its error;
  -- or, under a limit only, the permission for a block has not come. In each case the tracker counts
  -- exactly the bytes of the blocks before that point, on a counter that wraps at 2 ^ 64.
  pub stream_blocks-counts :
      (reads : List (Result (List ℕ))) (s : Upload W)
      → All (λ r. is_end r ≡ false) reads
      → Streamed s reads (stream_blocks service reads s)
  unfolding stream_blocks
  stream_blocks-counts [] s h = whole [] s (omega arith)
  stream_blocks-counts (err e ∷ reads) s h = broken [] e reads s (omega arith)
  stream_blocks-counts (ok [] ∷ reads) s h = absurd (ground (arith, h))
  stream_blocks-counts (ok (b ∷ bs) ∷ reads) s h =
      block-Streamed (b ∷ bs) reads s (λ t. stream_blocks-counts reads t h.1) _ refl
        (account-Accounted (b ∷ bs) s)
