-- ===== src/Strings/Affixes.antt =====
-- Prefixes.
use mango_agent.Base.{true, [], ◌∷◌, ◌++◌, Text, ◌≡◌, refl, arith}
use mango_agent.Strings.Defs.{has_prefix}

pub has_prefix-append : (p s : Text) → has_prefix (p ++ s) p ≡ true
unfolding has_prefix
has_prefix-append [] s = refl
has_prefix-append (c ∷ p) s = ground (arith, has_prefix-append p s)

-- What has a prefix has every prefix of that.
pub has_prefix_trans : (s p q : Text) → has_prefix s (p ++ q) ≡ true → has_prefix s p ≡ true
unfolding has_prefix
has_prefix_trans s [] q h = refl
has_prefix_trans [] (c ∷ p) q h = h
has_prefix_trans (d ∷ s) (c ∷ p) q h = ground (arith, has_prefix_trans s p q)
