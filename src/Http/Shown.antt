-- ===== src/Http/Shown.antt =====
-- internal/infrastructure/driver/httpadapter/handlers.go: what `/interactions` shows.
use mathlib.Core.Option.{none-ne-some, some-injective}
use keep_it_up.Prelude.{
  ℕ, ◌≤◌, ℤ, pos, Bool, true, false, Option, none, some, List, [], ◌∷◌, length, All, String, Result,
  ok, err, ◌≡◌, refl, subst, ◌∙◌, ap, arith, ◌⊎◌, inl, inr,
}
use keep_it_up.Stamp.{Codec}
use keep_it_up.Model.{Interaction}
use keep_it_up.Db.{Db}
use keep_it_up.Usecase.{Error, Clock}
use keep_it_up.Usecase.AccessManagement.{check}
use keep_it_up.Usecase.DataFetching.{list_interactions, list_own_interactions, first, last}
use keep_it_up.Usecase.DataFetching.Pages.{
  IsPage, list_interactions-IsPage, list_own_interactions-IsPage, first-game, last-game,
}
use keep_it_up.Requests.{Platform}
use keep_it_up.Http.{
  User, HttpRequest, HttpAdapter, Handled, InteractionDto, Json, interactions, interaction, json,
  error_json, player_id, interaction_dto, interaction_dtos, interaction_dto_from,
}
use keep_it_up.Http.Query.{
  Selector, query_all, query_player, query_first, query_last, game_id_from_query,
  interactions_limit, interactions_offset, query_selector,
}
use keep_it_up.Http.Handlers.{
  given, granted_or, access_checked, listed, fetched, selected, handle_list_interactions,
}

-- Interactions of a game, and of a player, as many as the limit at most; one of a game, or null.
abbrev pub Shows : ℤ → ℤ → ℤ → Selector → Json → Type 0
Shows g id limit query_all (interactions ds) =
    All (λ d. d.game_id ≡ g) ds × ((n : ℕ) × (limit ≡ pos n) × (length ds ≤ n))
Shows g id limit query_player (interactions ds) =
    All (λ d. (d.game_id ≡ g) × (d.player_id ≡ some id)) ds
    × ((n : ℕ) × (limit ≡ pos n) × (length ds ≤ n))
Shows g id limit query_first (interaction o) = (d : InteractionDto) → o ≡ some d → d.game_id ≡ g
Shows g id limit query_last (interaction o) = (d : InteractionDto) → o ≡ some d → d.game_id ≡ g
Shows g id limit _ _ = ⊥

length-dtos : (c : Codec) (is : List Interaction) → length (interaction_dtos c is) ≡ length is
length-dtos c [] = refl
length-dtos c (i ∷ is) = omega (arith, length-dtos c is)

module _ (c : Codec) (P : Interaction → Type 0) (Q : InteractionDto → Type 0)
    (carried : (i : Interaction) → P i → Q (interaction_dto c i)) where
  dtos-All : (is : List Interaction) → All P is → All Q (interaction_dtos c is)
  dtos-All [] h = tt
  dtos-All (i ∷ is) h = (carried i h.0, dtos-All is h.1)

  dtos-page :
      (limit : ℤ) (is : List Interaction)
      → IsPage P limit is
      → All Q (interaction_dtos c is)
        × ((n : ℕ) × (limit ≡ pos n) × (length (interaction_dtos c is) ≤ n))
  dtos-page limit is (all, (n, same, few)) =
      (dtos-All is all, (n, same, omega (arith, few, length-dtos c is)))

  dto-one :
      (o : Option Interaction)
      → ((i : Interaction) → o ≡ some i → P i)
      → (d : InteractionDto) → interaction_dto_from c o ≡ some d
      → Q d
  dto-one none h d e = absurd (none-ne-some d e)
  dto-one (some i) h d e = subst Q (some-injective (interaction_dto c i) d e) (carried i (h i refl))

-- The answer is an error's, or the database's interactions that the query asks for, of a game that
-- the player of the session has access to.
abbrev pub IsShown : Platform → HttpAdapter → Db → User → HttpRequest → Handled → Type 0
IsShown p h db user r answer =
    ((status : ℤ) × (text : String) × (answer ≡ error_json h status text))
    ⊎ ((selector : Selector) × (limit : ℤ) × (g : ℤ) × (id : ℤ) × (body : Json) × (query_selector r
          ≡ some selector)
        × (interactions_limit h r ≡ some limit)
        × (game_id_from_query r ≡ some g)
        × (player_id user ≡ some id)
        × (check p.sqlite db g id ≡ ok true)
        × Shows g id limit selector body
        × (answer ≡ json h (pos 200) body))

module _ (p : Platform) (h : HttpAdapter) (clock : Clock) (db : Db) (user : User)
    (r : HttpRequest) where
  given-IsShown :
      {A : Type 0} (status : ℤ) (text : String) (o : Option A) (rest : A → Handled)
      → ((a : A) → o ≡ some a → IsShown p h db user r (rest a))
      → IsShown p h db user r (given (error_json h status text) o rest)
  given-IsShown status text none rest k = inl (status, text, refl)
  given-IsShown status text (some a) rest k = k a refl

  granted-IsShown :
      (rest : Handled) (answer : Result Error Bool)
      → (answer ≡ ok true → IsShown p h db user r rest)
      → IsShown p h db user r (granted_or p h clock db (λ a. a) rest answer)
  granted-IsShown rest (ok true) k = k refl
  granted-IsShown rest (ok false) k = inl (pos 404, "Game not found or inaccessible", refl)
  granted-IsShown rest (err e) k = inl (pos 500, "Something went wrong!", refl)

  -- What is shown behind the checks.
  module _ (limit g id : ℤ) where
    abbrev Body : Selector → Handled → Type 0
    Body selector answer =
        ((status : ℤ) × (text : String) × (answer ≡ error_json h status text))
        ⊎ ((body : Json) × Shows g id limit selector body × (answer ≡ json h (pos 200) body))

    listed-Body :
        (selector : Selector) (res : Result Error (List Interaction))
        → ((is : List Interaction)
            → res ≡ ok is
            → Shows g id limit selector (interactions (interaction_dtos p.codec is)))
        → Body selector (listed p h clock db res)
    listed-Body selector (ok is) k =
        inr (interactions (interaction_dtos p.codec is), k is refl, refl)
    listed-Body selector (err e) k = inl (pos 500, "Something went wrong!", refl)

    fetched-Body :
        (selector : Selector) (res : Result Error (Option Interaction))
        → ((o : Option Interaction)
            → res ≡ ok o
            → Shows g id limit selector (interaction (interaction_dto_from p.codec o)))
        → Body selector (fetched p h clock db res)
    fetched-Body selector (ok o) k =
        inr (interaction (interaction_dto_from p.codec o), k o refl, refl)
    fetched-Body selector (err e) k = inl (pos 500, "Something went wrong!", refl)

    selected-Body :
        (selector : Selector) (offset : ℤ)
        → Body selector (selected p h clock db selector limit offset g id)
    selected-Body query_all offset =
        listed-Body query_all (list_interactions p.sqlite p.codec db g limit offset) λ is e.
          dtos-page p.codec (λ i. i.game_id ≡ g) (λ d. d.game_id ≡ g) (λ i own. own) limit is
            (list_interactions-IsPage p.sqlite p.codec db g limit offset is e)
    selected-Body query_player offset =
        listed-Body query_player (list_own_interactions p.sqlite p.codec db g id limit offset)
          λ is e.
            dtos-page p.codec (λ i. (i.game_id ≡ g) × (i.player_id ≡ some id))
              (λ d. (d.game_id ≡ g) × (d.player_id ≡ some id)) (λ i own. own) limit is
              (list_own_interactions-IsPage p.sqlite p.codec db g id limit offset is e)
    selected-Body query_first offset = fetched-Body query_first (first p.sqlite p.codec db g) λ o e.
        dto-one p.codec (λ i. i.game_id ≡ g) (λ d. d.game_id ≡ g) (λ i own. own) o
          (λ i is_it. first-game p.sqlite p.codec db g i (e ∙ ap ok is_it))
    selected-Body query_last offset = fetched-Body query_last (last p.sqlite p.codec db g) λ o e.
        dto-one p.codec (λ i. i.game_id ≡ g) (λ d. d.game_id ≡ g) (λ i own. own) o
          (λ i is_it. last-game p.sqlite p.codec db g i (e ∙ ap ok is_it))

  -- Whatever is asked of `/interactions`, the answer is an error's, or it shows interactions of the
  -- game that the query names, to a player of the session who has access to that game: for "all"
  -- and "player" as many as the limit at most, for "player" those of the player only.
  pub handle_list_interactions-IsShown :
      IsShown p h db user r (handle_list_interactions p h clock db user r)
  unfolding handle_list_interactions access_checked
  handle_list_interactions-IsShown =
      given-IsShown (pos 400) "Invalid query" (query_selector r) _ λ selector chosen.
        given-IsShown (pos 400) "Invalid limit" (interactions_limit h r) _ λ limit within.
          given-IsShown (pos 400) "Invalid offset" (interactions_offset r) _ λ offset _.
            given-IsShown (pos 400) "Invalid gameId" (game_id_from_query r) _ λ g named.
              given-IsShown (pos 401) "Authentication required" (player_id user) _ λ id known.
                granted-IsShown (selected p h clock db selector limit offset g id)
                  (check p.sqlite db g id)
                  λ granted. elim (selected-Body limit g id selector offset) [
                    | inl (status, text, e) ↦ inl (status, text, e)
                    | inr (body, shows, e) ↦ inr (
                      selector, limit, g, id, body, chosen, within, named, known, granted, shows, e,
                    )
                  ]
