-- ===== src/NumberTree/Keeps.antt =====
-- What every operation of the walk keeps: it is enough to keep it in the four changes of the walker.
use pdfdebug.Prelude.{
  ℕ, zero, suc, ◌+◌, Bool, true, false, ◌||◌, Option, none, some, List, [], ◌∷◌, ◌≡◌, inl, inr,
  refl, if_elim, length, Option-cases,
}
use pdfdebug.Prelude.Int.{ℤ, ltb_ℤ}
use pdfdebug.PdfObject.{
  Object, null, integer, indirect_ref, array, dict, Entries, elements, find, nil, cons,
}
use pdfdebug.NumberTree.{
  Label, nt_node_label, reference, direct, Message, too_deep, reached_twice, unresolved, is_null,
  no_kids_nums, unreadable, not_dictionary, kids_not_array, nums_not_array, odd_length,
  key_not_integer, Walker, lookup_key, is_visited, problem, lost, mark_visited, keep, obj_kind,
  Resolved, object, panicked, Outcome, with_object, and_then, Limits, unusable, between, aborted,
  both_integers, limits_in, limits, check_range, check_order, keep_first, read_entry, read_pairs,
  read_pair, odd, read_nums, nums_in, nums_entry, visit_kids, kids_in, kids_entry, read_children,
  read_limited, read_null, read_object, read, guarded, enter, visit,
}

-- The messages after which entries were not read.
abbrev pub is_loss : Message → Bool
is_loss too_deep = true
is_loss unresolved = true
is_loss no_kids_nums = true
is_loss (unreadable _) = true
is_loss (not_dictionary _) = true
is_loss (kids_not_array _) = true
is_loss (nums_not_array _) = true
is_loss (odd_length _) = true
is_loss (key_not_integer _ _) = true
is_loss _ = false

-- A property of the walker that each of the four changes keeps, where it is made.
pub record IsKept (P : Walker → Type 0) : Type 0 where
  pub by_problem :
      (w : Walker) (label : Label) (msg : Message)
      → is_loss msg ≡ false
      → P w
      → P (problem label msg w)
  pub by_lost :
      (w : Walker) (label : Label) (msg : Message) → is_loss msg ≡ true → P w → P (lost label msg w)
  pub by_visit : (w : Walker) (n : ℕ) → is_visited n w.visited ≡ false → P w → P (mark_visited n w)
  pub by_keep :
      (w : Walker) (label : Label) (key : ℤ) (v : Object)
      → lookup_key key w.key_node ≡ none
      → P w
      → P (keep label key v w)

-- What /Limits reports is no loss.
abbrev IsMild : Limits → Type 0
IsMild (unusable (some msg)) = is_loss msg ≡ false
IsMild _ = Unit

both_integers-IsMild : (a b : Resolved) → IsMild (both_integers a b)
both_integers-IsMild (panicked msg) b = tt
both_integers-IsMild (object a) (panicked msg) = tt
both_integers-IsMild (object (integer a)) (object (integer b)) =
    if_elim IsMild (ltb_ℤ b a) (λ _. refl) (λ _. tt)
both_integers-IsMild (object (integer a)) (object b) = refl
both_integers-IsMild (object a) (object b) = refl

limits_in-IsMild : (resolve : Object → Resolved) (r : Resolved) → IsMild (limits_in resolve r)
limits_in-IsMild resolve (panicked msg) = tt
limits_in-IsMild resolve (object (array (cons a (cons b nil)))) =
    both_integers-IsMild (resolve a) (resolve b)
limits_in-IsMild resolve (object _) = refl

limits-IsMild :
    (resolve : Object → Resolved) (d : Entries) (is_root : Bool) → IsMild (limits resolve d is_root)
unfolding limits
limits-IsMild resolve d true = tt
limits-IsMild resolve d false = elim (Option-cases (find "Limits" d)) [
  | inl e ↦ rw e refl
  | inr (o, e) ↦ rw e (limits_in-IsMild resolve (resolve o))
]

module _ (P : Walker → Type 0) (kept : IsKept P) where
  check_range-Keeps :
      (range : Limits) (label : Label) (key : ℤ) (w : Walker)
      → P w
      → P (check_range range label key w)
  check_range-Keeps (unusable _) label key w h = h
  check_range-Keeps (aborted _) label key w h = h
  check_range-Keeps (between lo hi) label key w h =
      if_elim P (ltb_ℤ key lo || ltb_ℤ hi key) (λ _. kept.by_problem w label _ refl h) (λ _. h)

  check_order-Keeps :
      (prev : Option ℤ) (label : Label) (key : ℤ) (w : Walker)
      → P w
      → P (check_order prev label key w)
  check_order-Keeps none label key w h = h
  check_order-Keeps (some prev) label key w h =
      if_elim P (ltb_ℤ key prev) (λ _. kept.by_problem w label _ refl h) (λ _. h)

  keep_first-Keeps :
      (o : Option Label) (label : Label) (key : ℤ) (v : Object) (w : Walker)
      → lookup_key key w.key_node ≡ o
      → P w
      → P (keep_first o label key v w)
  keep_first-Keeps none label key v w e h = kept.by_keep w label key v e h
  keep_first-Keeps (some first) label key v w e h = kept.by_problem w label _ refl h

  read_entry-Keeps :
      (range : Limits) (prev : Option ℤ) (label : Label) (key : ℤ) (v : Object) (w : Walker)
      → P w
      → P (read_entry range prev label key v w)
  unfolding read_entry
  read_entry-Keeps range prev label key v w h =
      keep_first-Keeps _ label key v _ refl
        (check_order-Keeps prev label key _ (check_range-Keeps range label key w h))

  module _ (resolve : Object → Resolved) where
    read_pair-Keeps :
        (range : Limits) (label : Label) (loop : Option ℤ → Walker → Outcome)
        → ((prev : Option ℤ) (w : Walker) → P w → P (loop prev w).0)
        → (r : Resolved) (v : Object) (i : ℕ) (prev : Option ℤ) (w : Walker) → P w
        → P (read_pair resolve range label loop r v i prev w).0
    read_pair-Keeps range label loop l (panicked msg) v i prev w h = h
    read_pair-Keeps range label loop l (object (integer key)) v i prev w h =
        l (some key) _ (read_entry-Keeps range prev label key v w h)
    read_pair-Keeps range label loop l (object o) v i prev w h =
        l prev _ (kept.by_lost w label (key_not_integer i (obj_kind o)) refl h)

    read_pairs-Keeps :
        (range : Limits) (label : Label) (os : List Object) (i : ℕ) (prev : Option ℤ) (w : Walker)
        → P w
        → P (read_pairs resolve range label os i prev w).0
    unfolding read_pairs
    read_pairs-Keeps range label [] i prev w h = h
    read_pairs-Keeps range label (k ∷ []) i prev w h = h
    read_pairs-Keeps range label (k ∷ v ∷ rest) i prev w h =
        read_pair-Keeps range label (read_pairs resolve range label rest (i + 2))
          (read_pairs-Keeps range label rest (i + 2)) (resolve k) v i prev w h

    read_nums-Keeps :
        (nums : List Object) (label : Label) (range : Limits) (w : Walker)
        → P w
        → P (read_nums resolve nums label range w).0
    unfolding read_nums
    read_nums-Keeps nums label range w h =
        read_pairs-Keeps range label nums 0 none _
          (if_elim P (odd (length nums)) (λ _. kept.by_lost w label _ refl h) (λ _. h))

    with_object-Keeps :
        (r : Resolved) (w : Walker) (go_on : Object → Outcome)
        → P w
        → ((o : Object) → P (go_on o).0)
        → P (with_object r w go_on).0
    with_object-Keeps (panicked msg) w go_on h k = h
    with_object-Keeps (object o) w go_on h k = k o

    nums_in-Keeps :
        (label : Label) (range : Limits) (w : Walker) (o : Object)
        → P w
        → P (nums_in resolve label range w o).0
    nums_in-Keeps label range w (array nums) h = read_nums-Keeps (elements nums) label range w h
    nums_in-Keeps label range w o h = kept.by_lost w label (nums_not_array (obj_kind o)) refl h

    nums_entry-Keeps :
        (o : Option Object) (label : Label) (range : Limits) (w : Walker)
        → P w
        → P (nums_entry resolve o label range w).0
    nums_entry-Keeps none label range w h = h
    nums_entry-Keeps (some o) label range w h =
        with_object-Keeps (resolve o) w _ h (λ o'. nums_in-Keeps label range w o' h)

    module _ (visit' : Object → Walker → Walker)
        (v : (o : Object) (w : Walker) → P w → P (visit' o w)) where
      visit_kids-Keeps :
          (kids : List Object) (w : Walker) → P w → P (visit_kids resolve visit' kids w)
      visit_kids-Keeps [] w h = h
      visit_kids-Keeps (kid ∷ kids) w h = visit_kids-Keeps kids (visit' kid w) (v kid w h)

      kids_in-Keeps :
          (label : Label) (w : Walker) (o : Object) → P w → P (kids_in resolve visit' label w o).0
      kids_in-Keeps label w (array kids) h = visit_kids-Keeps (elements kids) w h
      kids_in-Keeps label w o h = kept.by_lost w label (kids_not_array (obj_kind o)) refl h

      kids_entry-Keeps :
          (o : Option Object) (label : Label) (w : Walker)
          → P w
          → P (kids_entry resolve visit' o label w).0
      kids_entry-Keeps none label w h = h
      kids_entry-Keeps (some o) label w h =
          with_object-Keeps (resolve o) w _ h (λ o'. kids_in-Keeps label w o' h)

      and_then-Keeps :
          (out : Outcome) (go_on : Walker → Outcome)
          → P out.0
          → ((w : Walker) → P w → P (go_on w).0)
          → P (and_then out go_on).0
      and_then-Keeps (w, some msg) go_on h k = h
      and_then-Keeps (w, none) go_on h k = k w h

      read_children-Keeps :
          (kids nums : Option Object) (label : Label) (range : Limits) (w : Walker)
          → P w
          → P (read_children resolve visit' kids nums label range w).0
      read_children-Keeps none none label range w h = kept.by_lost w label no_kids_nums refl h
      read_children-Keeps (some k) nums label range w h =
          and_then-Keeps _ _ (kids_entry-Keeps (some k) label w h)
            (nums_entry-Keeps nums label range)
      read_children-Keeps none (some n) label range w h = nums_entry-Keeps (some n) label range w h

      read_limited-Keeps :
          (d : Entries) (label : Label) (range : Limits) (w : Walker)
          → IsMild range
          → P w
          → P (read_limited resolve visit' d label range w).0
      read_limited-Keeps d label (aborted msg) w m h = h
      read_limited-Keeps d label (unusable (some msg)) w m h =
          read_children-Keeps (find "Kids" d) (find "Nums" d) label (unusable none) _
            (kept.by_problem w label msg m h)
      read_limited-Keeps d label range w m h =
          read_children-Keeps (find "Kids" d) (find "Nums" d) label range w h

      read_null-Keeps : (node : Object) (w : Walker) → P w → P (read_null resolve node w)
      read_null-Keeps (indirect_ref number generation) w h =
          kept.by_lost w (reference number generation) unresolved refl h
      read_null-Keeps node w h = kept.by_problem w direct is_null refl h

      read_object-Keeps :
          (node : Object) (is_root : Bool) (w : Walker) (o : Object)
          → P w
          → P (read_object resolve visit' node is_root w o).0
      read_object-Keeps node is_root w null h = read_null-Keeps node w h
      read_object-Keeps node is_root w (dict d) h =
          read_limited-Keeps d (nt_node_label node) (limits resolve d is_root) w
            (limits-IsMild resolve d is_root) h
      read_object-Keeps node is_root w o h =
          kept.by_lost w (nt_node_label node) (not_dictionary (obj_kind o)) refl h

      guarded-Keeps : (label : Label) (out : Outcome) → P out.0 → P (guarded resolve label out)
      guarded-Keeps label (w, none) h = h
      guarded-Keeps label (w, some msg) h = kept.by_lost w label (unreadable msg) refl h

      read-Keeps :
          (node : Object) (is_root : Bool) (w : Walker)
          → P w
          → P (guarded resolve (nt_node_label node) (read resolve visit' node is_root w))
      unfolding read
      read-Keeps node is_root w h =
          guarded-Keeps (nt_node_label node) _
            (with_object-Keeps (resolve node) w _ h (λ o. read_object-Keeps node is_root w o h))

    enter-Keeps :
        (node : Object) (go_on : Walker → Walker) (w : Walker)
        → ((w' : Walker) → P w' → P (go_on w'))
        → P w
        → P (enter resolve node go_on w)
    enter-Keeps (indirect_ref number generation) go_on w k h =
        if_elim P (is_visited number w.visited)
          (λ _. kept.by_problem w (reference number generation) reached_twice refl h)
          (λ e. k _ (kept.by_visit w number e h))
    enter-Keeps node go_on w k h = k w h

    pub visit-Keeps :
        (levels : ℕ) (is_root : Bool) (node : Object) (w : Walker)
        → P w
        → P (visit resolve levels is_root node w)
    unfolding visit
    visit-Keeps zero is_root node w h = kept.by_lost w (nt_node_label node) too_deep refl h
    visit-Keeps (suc levels) is_root node w h =
        enter-Keeps node _ w
          (λ w' h'.
            read-Keeps (visit resolve levels false) (visit-Keeps levels false) node is_root w' h')
          h
