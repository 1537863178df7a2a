-- ===== src/Evidence/Bridge/Basis.antt =====
-- A bridge stands on evidence of its kind.
use rintel_core.Prelude.{
  ◌≡◌, ◌≢◌, String, true, false, some, all, All, all-All, ok, arith, eq_iff, string_eq,
  Option-cases, Bool-cases, inl, inr,
}
use rintel_core.Prelude.Json.{Fields}
use rintel_core.Evidence.Bridge.{
  CrossLanguageBridge, bridge_kind, required_provenance, has_value, validate_bridge,
}

-- A bridge is issued only between two different and non-empty ends, on an approved basis, and with
-- a value that is not empty for each entry that this basis requires. It keeps the ends and the
-- entries, and it merges no identities.
pub validate_bridge-ok :
    (source_ref target_ref basis : String) (provenance : Fields) (b : CrossLanguageBridge)
    → validate_bridge source_ref target_ref basis provenance ≡ ok b
    → (bridge_kind basis ≡ some b.basis)
      × (source_ref ≢ "")
      × (target_ref ≢ "")
      × (source_ref ≢ target_ref)
      × All (λ k. has_value provenance k ≡ true) (required_provenance b.basis)
      × (b.source_ref ≡ source_ref)
      × (b.target_ref ≡ target_ref)
      × (b.provenance ≡ provenance)
      × (b.identity_merged ≡ false)
unfolding validate_bridge
validate_bridge-ok s t k p b h = elim (Option-cases (bridge_kind k)) [
  | inl e ↦ absurd (ground (arith, h, e))
  | inr (kind, e) ↦ elim (Bool-cases (all (has_value p) (required_provenance kind))) [
    | inl a ↦
        let same : kind ≡ b.basis = ground (arith, h, e, a) in
        let present = all-All (has_value p) (required_provenance kind) a in
        (
          ground (arith, e, same),
          ground (arith, h, e, eq_iff s ""),
          ground (arith, h, e, eq_iff t ""),
          ground (arith, h, e, eq_iff s t),
          rw (← same) present,
          ground (arith, h, e),
          ground (arith, h, e),
          ground (arith, h, e),
          ground (arith, h, e),
        )
    | inr a ↦ absurd (ground (arith, h, e, a))
  ]
]
