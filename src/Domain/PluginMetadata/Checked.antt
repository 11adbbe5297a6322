-- ===== src/Domain/PluginMetadata/Checked.antt =====
-- What a list of plugins that Validate accepts satisfies, and when it may grow.
use zheng_harness.Base.{
  Bool, true, false, none, List, [], ◌∷◌, ◌++◌, ◌≡◌, refl, arith, ◌||◌, Bool-cases, Option-cases,
  inl, inr, str_eq_iff,
}
use zheng_harness.Domain.Types.{PluginMetadata}
use zheng_harness.Domain.PluginMetadata.{
  PluginKey, key_of, same_key, seen_key, check_plugins, validate,
}

abbrev pub has_key : List PluginMetadata → PluginKey → Bool
has_key [] k = false
has_key (m ∷ ms) k = same_key (key_of m) k || has_key ms k

pub has_key-append :
    (ms : List PluginMetadata) (n : PluginMetadata) (k : PluginKey)
    → has_key (ms ++ n ∷ []) k ≡ (has_key ms k || same_key (key_of n) k)
has_key-append [] n k = ground arith
has_key-append (m ∷ ms) n k = ground (arith, has_key-append ms n k)

-- A valid plugin with a key of its own may be added at the end.
pub check_plugins-append :
    (seen : List PluginKey) (ms : List PluginMetadata) (n : PluginMetadata)
    → check_plugins seen ms ≡ none
    → validate n ≡ none
    → has_key ms (key_of n) ≡ false
    → seen_key seen (key_of n) ≡ false
    → check_plugins seen (ms ++ n ∷ []) ≡ none
unfolding check_plugins
check_plugins-append seen [] n h good apart fresh = rw (good, fresh) refl
check_plugins-append seen (m ∷ ms) n h good apart fresh = elim (Option-cases (validate m)) [
  | inr (why, bad) ↦ ground (arith, h, bad)
  | inl valid ↦ elim (Bool-cases (seen_key seen (key_of m))) [
    | inl twice ↦ ground (arith, h, valid, twice)
    | inr once ↦
        let later : check_plugins (key_of m ∷ seen) ms ≡ none = ground (arith, h, valid, once) in
        rw (valid, once)
          (check_plugins-append (key_of m ∷ seen) ms n later good (ground (arith, apart))
            (ground (arith, apart, fresh)))
  ]
]

same_key_trans :
    (a b c : PluginKey) → same_key a b ≡ true → same_key b c ≡ true → same_key a c ≡ true
same_key_trans a b c h h' = ground (
  arith,
  str_eq_iff a.family b.family,
  str_eq_iff b.family c.family,
  str_eq_iff a.family c.family,
  str_eq_iff a.logical_id b.logical_id,
  str_eq_iff b.logical_id c.logical_id,
  str_eq_iff a.logical_id c.logical_id,
)

pub has_key_same :
    (ms : List PluginMetadata) (a b : PluginKey)
    → has_key ms a ≡ true
    → same_key a b ≡ true
    → has_key ms b ≡ true
has_key_same [] a b h same = cc
has_key_same (m ∷ ms) a b h same =
    ground (arith, h, same_key_trans (key_of m) a b, same, has_key_same ms a b)
