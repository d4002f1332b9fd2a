-- ===== src/Json/Joined.antt =====
-- Texts joined by commas are the text of a JSON array.
use mathlib.Core.List.{append_assoc, append-nil}
use nftableslib.Base.{◌≡◌, refl, true, false, List, [], ◌∷◌, ◌++◌, Bytes, Outcome, ok, arith}
use nftableslib.Json.Names.{join_commas}
use nftableslib.Json.Tree.{
  Json, Items, no_items, item, array, render, render_items, are_clean_items, is_clean,
}

unfoldable pub append_items : Items → Items → Items
append_items no_items ys = ys
append_items (item v xs) ys = item v (append_items xs ys)

-- Each item behind its comma.
unfoldable pub commas : Items → Bytes
commas no_items = []
commas (item v xs) = 44 ∷ (render v ++ commas xs)

pub commas-append : (xs ys : Items) → commas (append_items xs ys) ≡ commas xs ++ commas ys
unfolding commas append_items
commas-append no_items ys = refl
commas-append (item v xs) ys = rw (commas-append xs ys, append_assoc) refl

pub are_clean-append :
    (xs ys : Items)
    → are_clean_items xs ≡ true
    → are_clean_items ys ≡ true
    → are_clean_items (append_items xs ys) ≡ true
unfolding is_clean append_items
are_clean-append no_items ys hx hy = hy
are_clean-append (item v xs) ys hx hy = ground (arith, are_clean-append xs ys)

render_items-commas : (xs : Items) → render_items xs false ≡ commas xs ++ 93 ∷ []
unfolding render commas
render_items-commas no_items = refl
render_items-commas (item v xs) = rw (render_items-commas xs, append_assoc) refl

pub render-array :
    (v : Json) (xs : Items) → render (array (item v xs)) ≡ 91 ∷ (render v ++ (commas xs ++ 93 ∷ []))
unfolding render
render-array v xs = rw (render_items-commas xs) refl

module _ {A : Type 0} (marshal : A → Outcome Bytes) where
  -- Each item's text is that of its value.
  abbrev pub AreWritten : List A → Items → Type 0
  AreWritten [] no_items = Unit {0}
  AreWritten (x ∷ xs) (item v vs) = (marshal x ≡ ok (render v)) × AreWritten xs vs
  AreWritten _ _ = true ≡ false

  pub join_commas-commas :
      (x : A) (xs : List A) (v : Json) (vs : Items)
      → AreWritten (x ∷ xs) (item v vs)
      → join_commas marshal (x ∷ xs) ≡ ok (render v ++ commas vs)
  unfolding join_commas commas
  join_commas-commas x [] v no_items (e, es) = rw (e, append-nil) refl
  join_commas-commas x [] v (item w vs) (e, es) = absurd (ground (arith, es))
  join_commas-commas x (y ∷ xs) v no_items (e, es) = absurd (ground (arith, es))
  join_commas-commas x (y ∷ xs) v (item w vs) (e, es) = rw (e, join_commas-commas y xs w vs es) refl

  -- The loop between brackets.
  pub join_commas-render :
      (xs : List A) (vs : Items)
      → AreWritten xs vs
      → (t : Bytes) × (join_commas marshal xs ≡ ok t) × (91 ∷ (t ++ 93 ∷ []) ≡ render (array vs))
  unfolding join_commas render
  join_commas-render [] no_items h = ([], refl, refl)
  join_commas-render [] (item v vs) h = absurd (ground (arith, h))
  join_commas-render (x ∷ xs) no_items h = absurd (ground (arith, h))
  join_commas-render (x ∷ xs) (item v vs) h = (
    render v ++ commas vs,
    join_commas-commas x xs v vs h,
    rw (append_assoc, render_items-commas vs) refl,
  )
