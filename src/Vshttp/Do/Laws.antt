-- ===== src/Vshttp/Do/Laws.antt =====
-- vshttp/do.go: what one attempt of Do establishes, and the loop by induction on the attempts left.
use vintagestory_go.Base.{
  ℕ, zero, suc, ◌≤◌, ◌≡◌, refl, sym, ap, ◌∙◌, ◌⊎◌, inl, inr, Bool-cases, ltb, Bool, true, false,
  Option, none, some, [], ◌∷◌, Text, length, take, arith, length-take,
}
use vintagestory_go.Base.Int.{ℤ, max_int64}
use vintagestory_go.Vshttp.Errors.{ApiInfo, Error, nil, api, is_nil}
use vintagestory_go.Vshttp.Request.{Request, Response}
use vintagestory_go.Vshttp.Status.{retryable_status, transport_error}
use vintagestory_go.Vshttp.Do.{
  Reply, failed, answered, Body, body, refused, read, read_body, stop, settle, deliver, exchange,
}

take_all : (n : ℕ) (xs : Text) → length xs ≤ n → take (suc n) xs ≡ xs
take_all n [] h = refl
take_all zero (x ∷ xs) h = elim h [ ]
take_all (suc n) (x ∷ xs) h = ap (◌∷◌ x) (take_all n xs (omega arith))

is_nil→eq : (e : Error) → is_nil e ≡ true → e ≡ nil
is_nil→eq nil h = refl
is_nil→eq (Error.sentinel s) h = ground arith
is_nil→eq (Error.fault f m) h = ground arith
is_nil→eq (Error.wrapped m e) h = ground arith
is_nil→eq (Error.joined a m b) h = ground arith
is_nil→eq (Error.url_error m e) h = ground arith
is_nil→eq (api i e) h = ground arith

read-body :
    (op : Text) (req : Request) (resp : Response) (max : ℕ) (bytes : Text) (e : Error) (b : Text)
    → read op req resp max bytes e ≡ body b
    → (e ≡ nil) × (length bytes ≤ max) × (bytes ≡ b)
unfolding read
read-body op req resp max bytes e b h = (is_nil→eq e (ground arith), ground arith, ground arith)

length-take-suc : (max : ℕ) (xs : Text) → length (take (suc max) xs) ≤ max → length xs ≤ max
length-take-suc max xs h = omega (arith, length-take {0} (suc max) xs)

-- A body that was read: the whole content of a stream without a fault, or, if the limit is the largest
-- int64, nothing at all.
abbrev pub IsRead : ℕ → Response → Text → Type 0
IsRead max resp b = ((b ≡ resp.content) × (resp.fault ≡ nil)) ⊎ ((max_int64 ≤ max) × (b ≡ []))

-- A body that is accepted is within the limit.
pub read_body-body :
    (op : Text) (req : Request) (resp : Response) (max : ℕ) (b : Text)
    → read_body op req resp max ≡ body b
    → IsRead max resp b × (length b ≤ max)
unfolding read_body
read_body-body op req resp max b h =
    let (no_fault, short, same) = read-body op req resp max _ _ b h in
    elim (Bool-cases (ltb max max_int64)) [
      | inl k ↦
          let fits = length-take-suc max resp.content (rw k at short) in
          let whole = take_all max resp.content fits in
          (inl (sym same ∙ (rw k whole), ground (arith, no_fault, fits, k)), rw (← same) short)
      | inr k ↦ (inr (ground (arith, k), sym same ∙ (rw k refl)), rw (← same) short)
    ]

-- What a delivered response is: the reply to the last request sent, read within the limit, and with a status that is retried only if no attempt is left.
pub record IsDelivery (max : ℕ) (more : Bool) (reply : Reply) (resp : Response) (b : Text)
    : Type 0 where
  pub replied : reply ≡ answered resp
  pub complete : IsRead max resp b
  pub fits : length b ≤ max
  pub last : (retryable_status resp.status_code ≡ false) ⊎ (more ≡ false)

-- What an error is that ends the call before the last attempt.
abbrev pub IsFinal : Error → ApiInfo → Type 0
IsFinal ctx_err i = (is_nil ctx_err ≡ false) ⊎ (i.retryable ≡ false)

module _ (until : Text → Option ℤ) (op : Text) (req : Request) (max : ℕ) where
  settle-stop_some :
      (ctx_err : Error) (f : ApiInfo × Error) (r : Response × Text) (e : Error)
      → settle ctx_err f ≡ stop (some r) e
      → ⊥
  unfolding settle
  settle-stop_some ctx_err (i, c) r e h = ground arith

  settle-stop :
      (ctx_err : Error) (f : ApiInfo × Error) (e : Error)
      → settle ctx_err f ≡ stop none e
      → (i : ApiInfo) × (c : Error) × (e ≡ api i c) × IsFinal ctx_err i
  unfolding settle
  settle-stop ctx_err (i, c) e h = (i, c, ground arith, ground arith)

  deliver-stop_some :
      (more : Bool) (ctx_err : Error) (resp : Response) (b : Body) (r : Response × Text) (e : Error)
      → deliver until op req max more ctx_err resp b ≡ stop (some r) e
      → (b ≡ body r.1)
        × (r.0 ≡ resp)
        × (e ≡ nil)
        × ((retryable_status resp.status_code ≡ false) ⊎ (more ≡ false))
  unfolding deliver settle
  deliver-stop_some more ctx_err resp (body b) r e h =
      (ground arith, ground arith, ground arith, ground arith)
  deliver-stop_some more ctx_err resp (refused i c) r e h =
      absurd (settle-stop_some ctx_err (i, c) r e h)

  pub exchange-stop_some :
      (more : Bool) (ctx_err : Error) (reply : Reply) (resp : Response) (b : Text) (e : Error)
      → exchange until op req max more ctx_err reply ≡ stop (some (resp, b)) e
      → (e ≡ nil) × IsDelivery max more reply resp b
  unfolding exchange
  exchange-stop_some more ctx_err (failed f) resp b e h =
      absurd (settle-stop_some ctx_err (transport_error op req f) (resp, b) e h)
  exchange-stop_some more ctx_err (answered resp') resp b e h =
      let (read, same, none_left, last) = deliver-stop_some more ctx_err resp' _ (resp, b) e h in
      let (complete, fits) = read_body-body op req resp' max b read in
      (
        none_left,
        rw same (record { replied = refl; complete = complete; fits = fits; last = last }),
      )

  deliver-stop_none :
      (more : Bool) (ctx_err : Error) (resp : Response) (b : Body) (e : Error)
      → deliver until op req max more ctx_err resp b ≡ stop none e
      → (i : ApiInfo) × (c : Error) × (e ≡ api i c) × IsFinal ctx_err i
  unfolding deliver
  deliver-stop_none more ctx_err resp (body b) e h = ground arith
  deliver-stop_none more ctx_err resp (refused i c) e h = settle-stop ctx_err (i, c) e h

  pub exchange-stop_none :
      (more : Bool) (ctx_err : Error) (reply : Reply) (e : Error)
      → exchange until op req max more ctx_err reply ≡ stop none e
      → (i : ApiInfo) × (c : Error) × (e ≡ api i c) × IsFinal ctx_err i
  unfolding exchange
  exchange-stop_none more ctx_err (failed f) e h =
      settle-stop ctx_err (transport_error op req f) e h
  exchange-stop_none more ctx_err (answered resp) e h =
      deliver-stop_none more ctx_err resp (read_body op req resp max) e h
