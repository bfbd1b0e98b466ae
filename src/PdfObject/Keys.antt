-- ===== src/PdfObject/Keys.antt =====
-- Object numbers with their generations, the sets of them that a walk has visited, and how many of a
-- list it has not.
use pdfdebug.Prelude.{
  ℕ, suc, ◌≤◌, ◌<◌, Bool, true, false, ◌&&◌, ◌||◌, ◌==◌, ==_iff, List, [], ◌∷◌, ◌≡◌, ◌↔◌, inl, inr,
  refl, sym, subst, arith, if◌then◌else◌, Among,
}

abbrev pub Key : Type 0
Key = ℕ × ℕ

abbrev pub key_eq : Key → Key → Bool
key_eq (n, g) (m, h) = n == m && g == h

-- A map `visited`, as the list of the keys where it has true.
abbrev pub is_visited : List Key → Key → Bool
is_visited [] k = false
is_visited (j ∷ js) k = key_eq j k || is_visited js k

pub key_eq_iff : (j k : Key) → (key_eq j k ≡ true) ↔ (j ≡ k)
key_eq_iff (n, g) (m, h) = ground (arith, ==_iff n m, ==_iff g h)

pub key_eq_refl : (k : Key) → key_eq k k ≡ true
key_eq_refl k = (key_eq_iff k k).1 refl

-- The keys of a list that are not visited.
abbrev pub unvisited : List Key → List Key → ℕ
unvisited [] visited = 0
unvisited (k ∷ keys) visited =
    if is_visited visited k then unvisited keys visited else suc (unvisited keys visited)

pub unvisited-cons :
    (keys : List Key) (k : Key) (visited : List Key)
    → unvisited keys (k ∷ visited) ≤ unvisited keys visited
unvisited-cons [] k visited = omega arith
unvisited-cons (j ∷ keys) k visited = let ih = unvisited-cons keys k visited in ground arith

pub unvisited-cons_new :
    (keys : List Key) (k : Key) (visited : List Key)
    → is_visited visited k ≡ false
    → Among k keys
    → unvisited keys (k ∷ visited) < unvisited keys visited
unvisited-cons_new [] k visited new h = elim h [ ]
unvisited-cons_new (j ∷ keys) k visited new (inl e) =
    let tail = unvisited-cons keys k visited in
    let first = subst (λ x. is_visited visited x ≡ false) (sym e) new in
    let same = subst (λ x. key_eq k x ≡ true) (sym e) (key_eq_refl k) in
    rw (first, same) (omega arith)
unvisited-cons_new (j ∷ keys) k visited new (inr h) =
    let tail = unvisited-cons_new keys k visited new h in ground arith
