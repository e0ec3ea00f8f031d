-- ===== src/Scoring/Examples.antt =====
-- A queue of three items, and each theorem at it.
use btx_omni_prospect.Prelude.{
  String, Option, true, false, none, some, List, [], ◌∷◌, ◌≡◌, ◌&&◌, any, refl, map,
}
use btx_omni_prospect.Prelude.Sorting.{sorted, insert}
use btx_omni_prospect.Scoring.ActionPriority.{
  Item, priority_class, key_le, eligible, chosen, rank_actions,
}
use btx_omni_prospect.Scoring.Queue.{shows, carries, IsDistinct, IsNumbered, rank_actions_lem}
use btx_omni_prospect.Scoring.Order.{IsQueued, rank_actions-IsQueued}

abbrev call_buyer : Item
call_buyer = record {
  id = "a1";
  deduplication_key = none;
  status = some "OPEN";
  valid = true;
  confirmed_block = false;
  disposition = none;
  score = some 60;
  score_ceiling = none;
  due_date = none;
  created_at = none;
}

abbrev blocked_order : Item
blocked_order = record call_buyer { id = "a2"; confirmed_block = true; score = none }

abbrev same_call : Item
same_call = record call_buyer { id = "a3"; deduplication_key = some (some "a1"); score = some 40 }

abbrev inbox : List Item
inbox = call_buyer ∷ same_call ∷ blocked_order ∷ []

queue_order : map (λ r. r.item.id) (rank_actions 100 inbox) ≡ "a2" ∷ "a1" ∷ []
unfolding rank_actions chosen sorted insert key_le eligible priority_class
queue_order = refl

rank_actions_lem_example :
    ((k : Option String)
      → any (shows k) (rank_actions 100 inbox) ≡ any (λ x. eligible x && carries k x) inbox)
    × IsDistinct (rank_actions 100 inbox)
    × IsNumbered 0 (rank_actions 100 inbox)
rank_actions_lem_example = rank_actions_lem 100 inbox

rank_actions-IsQueued_example : IsQueued 100 (rank_actions 100 inbox)
rank_actions-IsQueued_example = rank_actions-IsQueued 100 inbox
