-- ===== src/Acl/Rules.antt =====
-- What `authorize` asks of the table of rules, and what `set` and `remove` do to that table.
use nginx_front_back_end_dem.Prelude.{
  ◌≡◌, refl, ap, ◌∙◌, none, some, List, [], ◌∷◌, Text, text_beq, text_beq_iff, if◌then◌else◌,
  length, take, arith,
}
use nginx_front_back_end_dem.Role.{Role, role_satisfies}
use nginx_front_back_end_dem.Acl.{
  AclEntry, Acl, best_entry, required_role, authorize, set_entry, set, remove_entries, remove,
}
use nginx_front_back_end_dem.Acl.Scan.{
  rule_of, longest_rule, longest_rule_cong, role_of, scan, scan-rule,
}

-- The decision depends on the table alone: the role must satisfy the rule for the longest prefix of
-- the path that has one, and Admin where none has.
pub authorize-longest_rule :
    (acl : Acl) (role : Role) (path : Text)
    → authorize acl role path
      ≡ role_satisfies role (longest_rule (rule_of acl.entries) path (length path))
unfolding authorize required_role best_entry
authorize-longest_rule acl role path =
    ap (role_satisfies role) (role_lem (scan-rule path acl.entries))
  where
    role_lem :
        {r : Role} → role_of (scan path none acl.entries) ≡ r → required_role acl.entries path ≡ r
    role_lem e = ground arith

rule_of-set_entry :
    (es : List AclEntry) (prefix other : Text) (min_role : Role)
    → rule_of (set_entry prefix min_role es) other
      ≡ (if text_beq prefix other then some min_role else rule_of es other)
unfolding set_entry
rule_of-set_entry [] prefix other min_role = refl
rule_of-set_entry (e ∷ es) prefix other min_role = ground (
  arith,
  text_beq_iff e.path_prefix prefix,
  text_beq_iff e.path_prefix other,
  text_beq_iff prefix other,
  rule_of-set_entry es prefix other min_role,
)

rule_of-remove_entries :
    (es : List AclEntry) (prefix other : Text)
    → rule_of (remove_entries prefix es) other
      ≡ (if text_beq prefix other then none else rule_of es other)
unfolding remove_entries
rule_of-remove_entries [] prefix other = ground arith
rule_of-remove_entries (e ∷ es) prefix other = ground (
  arith,
  text_beq_iff e.path_prefix prefix,
  text_beq_iff e.path_prefix other,
  text_beq_iff prefix other,
  rule_of-remove_entries es prefix other,
)

-- After `set` the decision is that of the table with the prefix's rule replaced or added, and after
-- `remove` that of the table without it; every other rule stays.
pub authorize-set_remove :
    (acl : Acl) (prefix path : Text) (min_role role : Role)
    → (authorize (set prefix min_role acl) role path
        ≡ role_satisfies role (
            longest_rule
              (λ p. if text_beq prefix p then some min_role else rule_of acl.entries p)
              path
              (length path)))
      × (authorize (remove prefix acl) role path
          ≡ role_satisfies role (
              longest_rule
                (λ p. if text_beq prefix p then none else rule_of acl.entries p)
                path
                (length path)))
unfolding set remove
authorize-set_remove acl prefix path min_role role = (
  authorize-longest_rule (set prefix min_role acl) role path
      ∙ ap (role_satisfies role) (
          longest_rule_cong (rule_of (set_entry prefix min_role acl.entries))
            (λ p. if text_beq prefix p then some min_role else rule_of acl.entries p) path
            (length path) λ k le. rule_of-set_entry acl.entries prefix (take k path) min_role),
  authorize-longest_rule (remove prefix acl) role path
      ∙ ap (role_satisfies role) (
          longest_rule_cong (rule_of (remove_entries prefix acl.entries))
            (λ p. if text_beq prefix p then none else rule_of acl.entries p) path (length path)
            λ k le. rule_of-remove_entries acl.entries prefix (take k path)),
)
