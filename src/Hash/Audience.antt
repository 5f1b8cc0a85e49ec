-- ===== src/Hash/Audience.antt =====
-- The audience of a policy (zkauthn/hash.go: NewAudience). SHA-256 is a parameter.
use kal_zk.Base.{◌<◌, ◌≡◌, sym, ap, Bytes, [], ◌∷◌, ◌++◌, codes, be_value}
use mathlib.Core.List.{append_assoc}
use kal_zk.Hash.{Field, Crypto, Lawful}

-- The labels with the separator between them.
abbrev pub joined : Bytes → Bytes → Bytes → Bytes
joined deployment policy epoch = deployment ++ (b'|' ∷ (policy ++ (b'|' ∷ epoch)))

unfoldable pub new_audience : Crypto → (Bytes → Bytes) → Bytes → Bytes → Bytes → Field
new_audience c sha256 deployment policy epoch =
    c.reduce (be_value (sha256 (codes "kal.zk.v1/audience|" ++ joined deployment policy epoch)))

-- Every audience is canonical.
pub new_audience-lt :
    (c : Crypto) (laws : Lawful c) (sha256 : Bytes → Bytes) (deployment policy epoch : Bytes)
    → new_audience c sha256 deployment policy epoch < c.modulus
unfolding new_audience
new_audience-lt c laws sha256 deployment policy epoch = laws.reduce-lt _

joined-separator : (a b d e : Bytes) → joined (a ++ (b'|' ∷ b)) d e ≡ joined a (b ++ (b'|' ∷ d)) e
joined-separator [] b d e = ap (λ s. b'|' ∷ s) (sym (append_assoc b (b'|' ∷ d) (b'|' ∷ e)))
joined-separator (x ∷ a) b d e = ap (λ s. x ∷ s) (joined-separator a b d e)

-- A separator within a label moves the border between two labels: different labels, one audience.
pub new_audience-ambiguous :
    (c : Crypto) (sha256 : Bytes → Bytes) (a b d e : Bytes)
    → new_audience c sha256 (a ++ (b'|' ∷ b)) d e ≡ new_audience c sha256 a (b ++ (b'|' ∷ d)) e
unfolding new_audience
new_audience-ambiguous c sha256 a b d e =
    ap (λ s. c.reduce (be_value (sha256 (codes "kal.zk.v1/audience|" ++ s))))
      (joined-separator a b d e)
