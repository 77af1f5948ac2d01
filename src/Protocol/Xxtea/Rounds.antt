-- ===== src/Protocol/Xxtea/Rounds.antt =====
-- core/internal/protocol/srun/xxtea.go: every round can be undone.
use smart_srun.Prelude.{
  ℕ, zero, suc, ◌+◌, ◌-◌, ◌%◌, ◌<◌, ◌≤◌, ◌≡◌, refl, ap, ◌∙◌, List, [], ◌∷◌, arith, All, length,
}
use smart_srun.Protocol.Xxtea.{word_size, delta, mix_at, mix_rest, last_word, mix_round, mix_rounds}

abbrev pub IsWord : ℕ → Type 0
IsWord w = w < word_size

mix_at-IsWord : (key : List ℕ) (sum position y z : ℕ) → mix_at key sum position y z < word_size
unfolding mix_at
mix_at-IsWord key sum position y z = omega arith

-- `x - m` on words.
abbrev take_away : ℕ → ℕ → ℕ
take_away x m = (x + (word_size - m)) % word_size

take_away_lem : (x m : ℕ) → x < word_size → m < word_size → take_away ((x + m) % word_size) m ≡ x
take_away_lem x m hx hm = omega arith

abbrev head_or : ℕ → List ℕ → ℕ
head_or d [] = d
head_or d (x ∷ xs) = x

-- Undo a round from a position on.
unmix_rest : List ℕ → ℕ → ℕ → ℕ → ℕ → List ℕ → List ℕ
unmix_rest key sum first position z [] = []
unmix_rest key sum first position z (x ∷ rest) =
    let after = unmix_rest key sum first (position + 1) x rest in
    take_away x (mix_at key sum position (head_or first after) z) ∷ after

unmix_rest-mix_rest :
    (key : List ℕ) (sum first position z : ℕ) (ws : List ℕ)
    → All IsWord ws
    → unmix_rest key sum first position z (mix_rest key sum first position z ws) ≡ ws
unfolding unmix_rest mix_rest
unmix_rest-mix_rest key sum first position z [] h = refl
unmix_rest-mix_rest key sum first position z (x ∷ []) h =
    rw
      (take_away_lem x (mix_at key sum position first z) h.0
        (mix_at-IsWord key sum position first z))
      refl
unmix_rest-mix_rest key sum first position z (x ∷ y ∷ rest) h =
    let m = mix_at key sum position y z in
    rw
      (
        unmix_rest-mix_rest key sum first (position + 1) ((x + m) % word_size) (y ∷ rest) h.1,
        take_away_lem x m h.0 (mix_at-IsWord key sum position y z),
      )
      refl

unmix_round : List ℕ → ℕ → List ℕ → List ℕ
unmix_round key sum [] = []
unmix_round key sum (x ∷ rest) =
    let after = unmix_rest key sum x 1 x rest in
    take_away x (mix_at key sum 0 (head_or x after) (last_word x after)) ∷ after

unmix_round-mix_round :
    (key : List ℕ) (sum x y : ℕ) (rest : List ℕ)
    → All IsWord (x ∷ y ∷ rest)
    → unmix_round key sum (mix_round key sum (x ∷ y ∷ rest)) ≡ x ∷ y ∷ rest
unfolding unmix_round mix_round
unmix_round-mix_round key sum x y rest h =
    let m = mix_at key sum 0 y (last_word y rest) in
    let changed = (x + m) % word_size in
    rw
      (
        unmix_rest-mix_rest key sum changed 1 changed (y ∷ rest) h.1,
        take_away_lem x m h.0 (mix_at-IsWord key sum 0 y (last_word y rest)),
      )
      refl

-- A round keeps the length and gives words.
mix_rest-All :
    (key : List ℕ) (sum first position z : ℕ) (ws : List ℕ)
    → (length (mix_rest key sum first position z ws) ≡ length ws)
      × All IsWord (mix_rest key sum first position z ws)
unfolding mix_rest
mix_rest-All key sum first position z [] = (refl, tt)
mix_rest-All key sum first position z (x ∷ []) = (refl, (omega arith, tt))
mix_rest-All key sum first position z (x ∷ y ∷ rest) =
    let changed = (x + mix_at key sum position y z) % word_size in
    let later = mix_rest-All key sum first (position + 1) changed (y ∷ rest) in
    (ap suc later.0, (omega arith, later.1))

-- A block: two words or more.
abbrev pub IsBlock : List ℕ → Type 0
IsBlock ws = (2 ≤ length ws) × All IsWord ws

mix_round-IsBlock :
    (key : List ℕ) (sum : ℕ) (ws : List ℕ)
    → IsBlock ws
    → IsBlock (mix_round key sum ws) × (length (mix_round key sum ws) ≡ length ws)
unfolding mix_round
mix_round-IsBlock key sum [] h = absurd (omega (arith, h.0))
mix_round-IsBlock key sum (x ∷ []) h = absurd (omega (arith, h.0))
mix_round-IsBlock key sum (x ∷ y ∷ rest) h =
    let changed = (x + mix_at key sum 0 y (last_word y rest)) % word_size in
    let later = mix_rest-All key sum changed 1 changed (y ∷ rest) in
    ((omega (arith, later.0), (omega arith, later.1)), ap suc later.0)

pub mix_rounds-IsBlock :
    (rounds : ℕ) (key : List ℕ) (sum : ℕ) (ws : List ℕ)
    → IsBlock ws
    → IsBlock (mix_rounds rounds key sum ws) × (length (mix_rounds rounds key sum ws) ≡ length ws)
unfolding mix_rounds
mix_rounds-IsBlock zero key sum ws h = (h, refl)
mix_rounds-IsBlock (suc rounds) key sum ws h =
    let next = (sum + delta) % word_size in
    let one = mix_round-IsBlock key next ws h in
    let later = mix_rounds-IsBlock rounds key next (mix_round key next ws) one.0 in
    (later.0, later.1 ∙ one.1)

unmix_round_lem :
    (key : List ℕ) (sum : ℕ) (ws : List ℕ)
    → IsBlock ws
    → unmix_round key sum (mix_round key sum ws) ≡ ws
unmix_round_lem key sum [] h = absurd (omega (arith, h.0))
unmix_round_lem key sum (x ∷ []) h = absurd (omega (arith, h.0))
unmix_round_lem key sum (x ∷ y ∷ rest) h = unmix_round-mix_round key sum x y rest h.1

-- Undo the rounds, the last one first.
pub unmix_rounds : ℕ → List ℕ → ℕ → List ℕ → List ℕ
unmix_rounds zero key sum block = block
unmix_rounds (suc rounds) key sum block =
    let next = (sum + delta) % word_size in
    unmix_round key next (unmix_rounds rounds key next block)

-- The rounds on a block of two words or more are undone by the same rounds backwards.
pub unmix_rounds-mix_rounds :
    (rounds : ℕ) (key : List ℕ) (sum : ℕ) (ws : List ℕ)
    → IsBlock ws
    → unmix_rounds rounds key sum (mix_rounds rounds key sum ws) ≡ ws
unfolding unmix_rounds mix_rounds
unmix_rounds-mix_rounds zero key sum ws h = refl
unmix_rounds-mix_rounds (suc rounds) key sum ws h =
    let next = (sum + delta) % word_size in
    let one = mix_round-IsBlock key next ws h in
    rw (unmix_rounds-mix_rounds rounds key next (mix_round key next ws) one.0)
      (unmix_round_lem key next ws h)

pub unmix_rounds-nil : (rounds : ℕ) (key : List ℕ) (sum : ℕ) → unmix_rounds rounds key sum [] ≡ []
unfolding unmix_rounds unmix_round
unmix_rounds-nil zero key sum = refl
unmix_rounds-nil (suc rounds) key sum =
    rw (unmix_rounds-nil rounds key ((sum + delta) % word_size)) refl
