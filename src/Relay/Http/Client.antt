-- ===== src/Relay/Http/Client.antt =====
-- The address that a request is limited by: `clientIP` and `trusted` of internal/relay/server.go.
use mathlib.Core.List.{reverse, reverse-append, append_assoc}
use nomctl.Prelude.{
  ℕ, ◌≡◌, ◌≢◌, ◌⊎◌, inl, inr, refl, ap, ◌∙◌, Bool, true, false, not, ◌||◌, none, some, List, [],
  ◌∷◌, ◌++◌, Text, text_eq, nat_eq, ◌==◌, any, arith, eqb_ne, Bool-cases, if◌then◌else◌,
}
use nomctl.Relay.Http.Types.{Request, Codec, Options}

first_cons : ℕ → List Text → List Text
first_cons c [] = (c ∷ []) ∷ []
first_cons c (t ∷ ts) = (c ∷ t) ∷ ts

-- `strings.Split(list, ",")`
unfoldable pub split_commas : Text → List Text
unfolding first_cons
split_commas [] = [] ∷ []
split_commas (c ∷ s) =
    let rest = split_commas s in if c == b',' then [] ∷ rest else first_cons c rest

-- A text has a first part.
split_commas-cons : (s : Text) → (t : Text) × (ts : List Text) × (split_commas s ≡ t ∷ ts)
unfolding split_commas
split_commas-cons [] = ([], [], refl)
split_commas-cons (c ∷ s) =
    let (t, ts, e) = split_commas-cons s in
    elim (Bool-cases (c == b',')) [
      | inl comma ↦ ([], split_commas s, rw comma)
      | inr other ↦ (c ∷ t, ts, rw other (rw e))
    ]

split_commas-join : (s t : Text) → split_commas (s ++ b',' ∷ t) ≡ split_commas s ++ split_commas t
unfolding split_commas
split_commas-join [] t = refl
split_commas-join (c ∷ s) t =
    let (u, us, e) = split_commas-cons s in rw (split_commas-join s t) (rw e (ground arith))

module _ (codec : Codec) (options : Options) where
  unfoldable pub trusted : Text → Bool
  trusted ip = elim (codec.parse_ip ip) [
    | none ↦ false
    | some parsed ↦ any (λ contains. contains parsed) options.trusted_proxies
  ]

  -- The loop over the entries of the header, the right-most first.
  pub scan : Text → List Text → Text
  scan host [] = host
  scan host (part ∷ parts) =
      let next = scan host parts in
      let ip = codec.trim_space part in
      if ip == [] then next else if not (trusted ip) then ip else next

  is_empty : List (ℕ → Bool) → Bool
  is_empty [] = true
  is_empty (_ ∷ _) = false

  unfoldable pub client_ip : Request → Text
  unfolding scan is_empty
  client_ip r =
      if is_empty options.trusted_proxies || not (trusted r.peer)
      then r.peer
      else scan r.peer (reverse (split_commas r.forwarded))

  -- An entry that the loop stops at.
  abbrev pub IsClient : Text → Type 0
  IsClient part = (codec.trim_space part ≢ []) × (trusted (codec.trim_space part) ≡ false)

  scan-append :
      (host : Text) (front : List Text) (part : Text) (back rest : List Text)
      → IsClient part
      → scan host (front ++ part ∷ back) ≡ scan host (front ++ part ∷ rest)
  unfolding scan
  scan-append host [] part back rest (some', shut) =
      rw (eqb_ne (codec.trim_space part) [] some', shut)
  scan-append host (p ∷ front) part back rest h = rw (scan-append host front part back rest h)

  -- An entry in front of the header's own is never reached: where the part of the header that a
  -- trusted proxy wrote has an entry that is no trusted proxy, anything that a client sent in front
  -- of it leaves the address as it is.
  pub client_ip-forged :
      (r : Request) (forged real : Text) (front : List Text) (part : Text) (back : List Text)
      → reverse (split_commas real) ≡ front ++ part ∷ back
      → IsClient part
      → client_ip (record r { forwarded = forged ++ b',' ∷ real })
        ≡ client_ip (record r { forwarded = real })
  unfolding client_ip
  client_ip-forged r forged real front part back e h =
      let longer : reverse (split_commas (forged ++ b',' ∷ real))
          ≡ front ++ part ∷ (back ++ reverse (split_commas forged)) =
        ap reverse (split_commas-join forged real)
        ∙ reverse-append (split_commas forged) (split_commas real)
        ∙ rw e (append_assoc front (part ∷ back) _) in
      rw longer (rw e (rw (scan-append r.peer front part _ back h)))

  -- The address is the peer's, or that of an entry that is no trusted proxy.
  client_scan :
      (host : Text) (parts : List Text)
      → (scan host parts ≡ host) ⊎ (trusted (scan host parts) ≡ false)
  unfolding scan
  client_scan host [] = inl refl
  client_scan host (part ∷ parts) = ground (arith, client_scan host parts)

  pub client_ip_untrusted : (r : Request) → (client_ip r ≡ r.peer) ⊎ (trusted (client_ip r) ≡ false)
  unfolding client_ip
  client_ip_untrusted r = ground (arith, client_scan r.peer (reverse (split_commas r.forwarded)))
