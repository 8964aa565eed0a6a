-- ===== src/Quests/Answers.antt =====
-- What app/quests/evaluator.py reads from the answers of a lingo-core that is up.
use lingo_async.Prelude.{zero, suc, ◌≡◌, refl, Option, none, some}
use lingo_async.Prelude.Int.{ℤ, pos, negsuc}
use lingo_async.Python.Exn.{ok}
use lingo_async.Python.Json.{
  Json, Items, Fields, null, bool, int, float, str, arr, dict, nil, cons, end, field, get, lookup,
  or_else, is_truthy, iterate, list_of, to_int,
}
use lingo_async.Client.Health.{IsCount, HasProgress, HasItems}
use lingo_async.Quests.{quests_of, progress_of, current_of}

dict_or : (ps : Fields) → or_else (some (dict ps)) (dict end) ≡ dict ps
unfolding or_else is_truthy
dict_or end = refl
dict_or (field k v fs) = refl

arr_or : (items : Items) → or_else (some (arr items)) (arr nil) ≡ arr items
unfolding or_else is_truthy
arr_or nil = refl
arr_or (cons v vs) = refl

pub progress_read :
    (fs : Fields) (h : HasProgress fs) → progress_of (dict fs) ≡ ok (dict h.progress)
unfolding get
progress_read fs h = rw (h.found) (rw (dict_or h.progress) refl)

count_read :
    (found : Option Json) → IsCount found → (n : ℤ) × (to_int (or_else found (int (pos 0))) ≡ ok n)
unfolding to_int or_else is_truthy
count_read none h = (pos 0, refl)
count_read (some (int (pos zero))) h = (pos zero, refl)
count_read (some (int (pos (suc n)))) h = (pos (suc n), refl)
count_read (some (int (negsuc n))) h = (negsuc n, refl)
count_read (some null) h = absurd h
count_read (some (bool _)) h = absurd h
count_read (some (float _)) h = absurd h
count_read (some (str _)) h = absurd h
count_read (some (arr _)) h = absurd h
count_read (some (dict _)) h = absurd h

pub current_read :
    (ps : Fields) → IsCount (lookup "current" ps) → (n : ℤ) × (current_of (dict ps) ≡ ok n)
unfolding get
current_read ps h = count_read (lookup "current" ps) h

pub items_read : (fs : Fields) (h : HasItems fs) → quests_of (dict fs) ≡ ok (list_of h.items)
unfolding quests_of get iterate
items_read fs h = rw (h.found) (rw (arr_or h.items) refl)
