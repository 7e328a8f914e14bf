-- ===== src/ClientIp/Grouping.antt =====
-- The texts by which clientip/clientip.go names a client and its network.
use tokyo3_base.Base.{
  ℕ, ◌≡◌, refl, sym, ap, ◌∙◌, false, none, some, arith, Bytes, Option-cases, inl, inr,
}
use tokyo3_base.ClientIp.{Addr, v4, v6, is_4_in_6, unmap, AddrText, IsTextual, canonical, network}

unmap_idem : (a : Addr) → unmap (unmap a) ≡ unmap a
unfolding unmap
unmap_idem (v4 a) = refl
unmap_idem (v6 hi lo zone) = ground arith

module _ (t : AddrText) (textual : IsTextual t) where
  canonical_of_some :
      (host : Bytes) (a : Addr)
      → t.parse_addr host ≡ some a
      → canonical t host ≡ t.to_text (unmap a)
  unfolding canonical
  canonical_of_some host a h = ground arith

  canonical_of_none : (host : Bytes) → t.parse_addr host ≡ none → canonical t host ≡ host
  unfolding canonical
  canonical_of_none host h = ground arith

  -- A canonical text is its own canonical text.
  pub canonical_idem : (host : Bytes) → canonical t (canonical t host) ≡ canonical t host
  canonical_idem host = elim (Option-cases (t.parse_addr host)) [
    | inl e ↦ ap (canonical t) (canonical_of_none host e)
    | inr (a, e) ↦
        ap (canonical t) (canonical_of_some host a e)
        ∙ canonical_of_some (t.to_text (unmap a)) (unmap a) (textual.parse_addr-to_text (unmap a))
        ∙ ap t.to_text (unmap_idem a)
        ∙ sym (canonical_of_some host a e)
  ]

  -- Where addresses are read as they are printed, the IPv6 addresses of one /64 that are not
  -- IPv4-mapped have one network key, and an IPv4 address is its own.
  pub network-to_text :
      (hi lo lo' : ℕ) (zone zone' : Bytes) (a : ℕ)
      → is_4_in_6 (v6 hi lo zone) ≡ false
      → is_4_in_6 (v6 hi lo' zone') ≡ false
      → (network t (t.to_text (v6 hi lo zone)) ≡ network t (t.to_text (v6 hi lo' zone')))
        × (network t (t.to_text (v4 a)) ≡ t.to_text (v4 a))
  unfolding network
  network-to_text hi lo lo' zone zone' a h h' = ground (
    arith,
    textual.parse_addr-to_text (v6 hi lo zone),
    textual.parse_addr-to_text (v6 hi lo' zone'),
    textual.parse_addr-to_text (v4 a),
  )
