-- ===== src/Prelude/Dict.antt =====
-- Python dicts with text keys, as the list of their items in insertion order.
use python_backend_manager.Prelude.Base.{
  String, ◌≡◌, refl, Option, none, some, List, [], ◌∷◌, arith, str_eq, eq_iff, eq_refl,
  if◌then◌else◌,
}

abbrev pub Dict {ℓ} : Type ℓ → Type ℓ
Dict V = List (String × V)

module _ {ℓ} {V : Type ℓ} where
  -- `d.get(k)`
  unfoldable pub get : Dict V → String → Option V
  get [] k = none
  get ((j, v) ∷ d) k = if str_eq j k then some v else get d k

  -- `d.get(k, default)`
  unfoldable pub get_or : Dict V → String → V → V
  get_or [] k v₀ = v₀
  get_or ((j, v) ∷ d) k v₀ = if str_eq j k then v else get_or d k v₀

  -- `d[k] = v`
  unfoldable pub put : Dict V → String → V → Dict V
  put [] k v = (k, v) ∷ []
  put ((j, w) ∷ d) k v = if str_eq j k then (j, v) ∷ d else (j, w) ∷ put d k v

  pub get_or-put :
      (d : Dict V) (k j : String) (v v₀ : V)
      → get_or (put d k v) j v₀ ≡ (if str_eq k j then v else get_or d j v₀)
  unfolding get_or put
  get_or-put [] k j v v₀ = refl
  get_or-put ((i, w) ∷ d) k j v v₀ =
      ground (arith, eq_iff i k, eq_iff i j, eq_iff k j, get_or-put d k j v v₀)

  pub get-put : (d : Dict V) (k : String) (v : V) → get (put d k v) k ≡ some v
  unfolding get put
  get-put [] k v = ground (arith, eq_refl k)
  get-put ((i, w) ∷ d) k v = ground (arith, eq_iff i k, get-put d k v)
