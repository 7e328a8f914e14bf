-- ===== src/ClientIp/Forwarded.antt =====
-- Which address clientip/clientip.go believes, of what X-Forwarded-For says.
use tokyo3_base.Base.{
  ℕ, ◌≡◌, ◌≢◌, refl, ap, ◌∙◌, true, false, some, List, [], ◌∷◌, ◌++◌, arith, Bytes, All,
  All-reverse, Option-cases, Bool-cases, ◌⊎◌, inl, inr,
}
use mathlib.Core.List.{reverse, reverse-append, reverse-cons, append_assoc}
use tokyo3_base.Std.Split.{split_on, split_on-append, join_with, trim_space}
use tokyo3_base.ClientIp.{
  Network, Addr, is_nil, is_none, any_contains, AddrText, Request, Extractor, host_only, canonical,
  is_trusted, walk, from_request,
}

module _ (t : AddrText) (x : Extractor) where
  abbrev pub peer_of : Request → Bytes
  peer_of r = canonical t (host_only t r.remote_addr)

  walk-trusted :
      (peer part : Bytes) (parts : List Bytes)
      → is_trusted t x (trim_space part) ≡ true
      → walk t x peer (part ∷ parts) ≡ walk t x peer parts
  unfolding walk is_trusted
  walk-trusted peer part parts h = ground arith

  walk-append :
      (peer : Bytes) (hops parts : List Bytes)
      → All (λ part. is_trusted t x (trim_space part) ≡ true) hops
      → walk t x peer (hops ++ parts) ≡ walk t x peer parts
  walk-append peer [] parts h = refl
  walk-append peer (hop ∷ hops) parts h =
      walk-trusted peer hop (hops ++ parts) h.0 ∙ walk-append peer hops parts h.1

  walk-client :
      (peer client : Bytes) (parts : List Bytes) {a : Addr}
      → t.parse_ip (trim_space client) ≡ some a
      → is_trusted t x (trim_space client) ≡ false
      → walk t x peer (client ∷ parts) ≡ canonical t (trim_space client)
  unfolding walk
  walk-client peer client parts p h = ground arith

  trusted-not-nil : (xs : List Network) (a : Addr) → any_contains xs a ≡ true → is_nil xs ≡ false
  unfolding any_contains is_nil
  trusted-not-nil [] a h = cc
  trusted-not-nil (n ∷ ns) a h = refl

  is_trusted-not-nil : (ip : Bytes) → is_trusted t x ip ≡ true → is_nil x.trusted ≡ false
  unfolding is_trusted
  is_trusted-not-nil ip h = elim (Option-cases (t.parse_ip ip)) [
    | inl e ↦ absurd (ground (arith, e))
    | inr (a, e) ↦ trusted-not-nil x.trusted a (ground (arith, e))
  ]

  -- A header: what stands behind the text that a client seeded it with, or all of it, where it did not.
  abbrev pub IsSeeded : Bytes → Bytes → Type 0
  IsSeeded header rest =
      ((header ≡ rest) × (rest ≢ [])) ⊎ ((seeded : Bytes) × (header ≡ seeded ++ (b',' ∷ rest)))

  is_nil-append : (seeded rest : Bytes) (c : ℕ) → is_nil (seeded ++ (c ∷ rest)) ≡ false
  unfolding is_nil
  is_nil-append [] rest c = refl
  is_nil-append (s ∷ seeded) rest c = refl

  is_nil-false : (s : Bytes) → s ≢ [] → is_nil s ≡ false
  unfolding is_nil
  is_nil-false [] h = absurd (h refl)
  is_nil-false (c ∷ s) h = refl

  from_request-walk :
      (r : Request)
      → is_trusted t x (peer_of r) ≡ true
      → is_nil (join_with b',' r.forwarded_for) ≡ false
      → from_request t x r
        ≡ walk t x (peer_of r) (reverse (split_on b',' (join_with b',' r.forwarded_for)))
  unfolding from_request
  from_request-walk r trusted full = rw (is_trusted-not-nil (peer_of r) trusted, trusted, full) refl

  IsSeeded-parts :
      (header rest client : Bytes) (hops : List Bytes)
      → IsSeeded header rest
      → split_on b',' rest ≡ client ∷ hops
      → (is_nil header ≡ false)
        × ((before : List Bytes) × (split_on b',' header ≡ before ++ (client ∷ hops)))
  IsSeeded-parts header rest client hops (inl (same, full)) parts =
      (ap is_nil same ∙ is_nil-false rest full, ([], ap (split_on b',') same ∙ parts))
  IsSeeded-parts header rest client hops (inr (seeded, same)) parts = (
    ap is_nil same ∙ is_nil-append seeded rest b',',
    (
      split_on b',' seeded,
      ap (split_on b',') same
          ∙ split_on-append b',' seeded rest
          ∙ ap (◌++◌ (split_on b',' seeded)) parts,
    ),
  )

  reverse_hops :
      (before : List Bytes) (client : Bytes) (hops : List Bytes)
      → reverse (before ++ (client ∷ hops)) ≡ reverse hops ++ (client ∷ reverse before)
  reverse_hops before client hops =
      reverse-append before (client ∷ hops)
      ∙ ap (λ t. t ++ reverse before) (reverse-cons client hops)
      ∙ append_assoc (reverse hops) (client ∷ []) (reverse before)

  -- Behind a trusted peer the answer is the last hop that is not trusted, if it is an address, in
  -- canonical form, whatever text, commas included, a client had put in front of it, if any.
  pub from_request_forwarded :
      (r : Request) (rest client : Bytes) (hops : List Bytes) (a : Addr)
      → is_trusted t x (peer_of r) ≡ true
      → IsSeeded (join_with b',' r.forwarded_for) rest
      → split_on b',' rest ≡ client ∷ hops
      → All (λ part. is_trusted t x (trim_space part) ≡ true) hops
      → t.parse_ip (trim_space client) ≡ some a
      → is_trusted t x (trim_space client) ≡ false
      → from_request t x r ≡ canonical t (trim_space client)
  from_request_forwarded r rest client hops a trusted header parts all parsed outside =
      let (full, (before, split)) =
        IsSeeded-parts (join_with b',' r.forwarded_for) rest client hops header parts in
      from_request-walk r trusted full
      ∙ ap (walk t x (peer_of r)) (ap reverse split ∙ reverse_hops before client hops)
      ∙ walk-append (peer_of r) (reverse hops) _ (All-reverse _ hops all)
      ∙ walk-client (peer_of r) client (reverse before) parsed outside

  -- A hop that is an address of its own, with trusted hops behind it only; the hops stand last first.
  abbrev pub IsClient : List Bytes → Bytes → Type 0
  IsClient parts client =
      (hops : List Bytes) × (before : List Bytes) × (parts ≡ hops ++ (client ∷ before))
      × All (λ part. is_trusted t x (trim_space part) ≡ true) hops
      × ((a : Addr) × (t.parse_ip (trim_space client) ≡ some a))
      × (is_trusted t x (trim_space client) ≡ false)

  walk_cases :
      (peer : Bytes) (parts : List Bytes)
      → (walk t x peer parts ≡ peer)
        ⊎ ((client : Bytes) × IsClient parts client
            × (walk t x peer parts ≡ canonical t (trim_space client)))
  unfolding walk is_none
  walk_cases peer [] = inl refl
  walk_cases peer (part ∷ parts) = elim (Option-cases (t.parse_ip (trim_space part))) [
    | inl bad ↦ inl (ground (arith, bad))
    | inr (a, parsed) ↦ elim (Bool-cases (is_trusted t x (trim_space part))) [
      | inr outside ↦
          inr (part, ([], parts, refl, tt, (a, parsed), outside), ground (arith, parsed, outside))
      | inl trusted ↦ elim (walk_cases peer parts) [
        | inl same ↦ inl (ground (arith, parsed, trusted, same))
        | inr (client, (hops, before, split, all, address, outside), same) ↦ inr (
          client,
          (part ∷ hops, before, ap (◌∷◌ part) split, (trusted, all), address, outside),
          ground (arith, parsed, trusted, same),
        )
      ]
    ]
  ]

  -- The answer is the peer; or the peer is trusted, and the answer is the canonical form of a hop of
  -- the header that is an address, that is not trusted, and that trusted hops only come after.
  pub from_request_cases :
      (r : Request)
      → (from_request t x r ≡ peer_of r)
        ⊎ ((is_trusted t x (peer_of r) ≡ true)
            × ((client : Bytes) × IsClient
                  (reverse (split_on b',' (join_with b',' r.forwarded_for)))
                  client
                × (from_request t x r ≡ canonical t (trim_space client))))
  unfolding from_request
  from_request_cases r = elim (Bool-cases (is_trusted t x (peer_of r))) [
    | inr outside ↦ inl (ground (arith, outside))
    | inl trusted ↦ elim (Bool-cases (is_nil (join_with b',' r.forwarded_for))) [
      | inl empty ↦ inl (ground (arith, trusted, empty))
      | inr full ↦
          let from : from_request t x r
              ≡ walk t x (peer_of r) (reverse (split_on b',' (join_with b',' r.forwarded_for))) =
            rw (is_trusted-not-nil (peer_of r) trusted, trusted, full) refl in
          elim (walk_cases (peer_of r) (reverse (split_on b',' (join_with b',' r.forwarded_for)))) [
            | inl same ↦ inl (from ∙ same)
            | inr (client, is_client, same) ↦ inr (trusted, (client, is_client, from ∙ same))
          ]
    ]
  ]
