-- ===== src/Policy/Projections/States.antt =====
-- The projections of PolicyEngine (policy/engine.py) are accepted, whatever the state of the game.
use placegame_mcp.Prelude.{ℕ, Bool, refl, Option, none, some, List, [], ◌∷◌}
use placegame_mcp.Text.{Text, codes}
use placegame_mcp.Plans.Canonical
use placegame_mcp.Plans.Canonical.{
  Json, project, project_items, project_fields, normalize, order_items, key_field, keyed_get,
  last_part,
}
use placegame_mcp.Plans.Rows.{Difficulty}
use placegame_mcp.Policy.Bosses.Choices.{
  BossEntryState, EquipmentSlot, BossAffix, BossState, BossSelection, Preview,
}
use placegame_mcp.Policy.Worlds.{WorldBossInstance}
use placegame_mcp.Policy.Professions.{ProfessionQueueEntry, ProfessionRecipe, ProfessionState}
use placegame_mcp.Policy.Rewards.{
  RewardState, RewardCandidate, candidate_fields, candidate_json, reward_fields, projection,
  reward_keyed,
}
use placegame_mcp.Idle.Planner.{IdleSummary}
use placegame_mcp.Policy.Projections.{
  idle_fields, dict, keyed, difficulty_name, difficulty_json, entry_fields, entry_json, slot_fields,
  slot_json, instance_fields, instance_json, world_fields, world_projection, queue_fields,
  queue_json, recipe_fields, recipe_json, profession_fields, profession_projection, potion_fields,
  affix_fields, affix_json, preview_fields, preview_json, selection_fields, selection_json,
  chosen_json, boss_fields, boss_projection,
}
use placegame_mcp.Policy.Projections.Succeeding.{
  Accepted, AllAccepted, text-Accepted, integer-Accepted, boolean-Accepted, optional_text-Accepted,
  optional_number-Accepted, dict-Accepted, amounts-Accepted, array-Accepted, IsItem,
  keyed_array-Accepted, dict-IsItem,
}

abbrev key : Text
key = codes "key"

-- The fields after the key.
abbrev rest : List (Text × Json) → List (Text × Json)
rest [] = []
rest (f ∷ fs) = fs

difficulty-Accepted : (path : Text) (d : Difficulty) → Accepted keyed path (difficulty_json d)
difficulty-Accepted path d = text-Accepted keyed path (difficulty_name d)

instance-IsItem : (i : WorldBossInstance) → IsItem keyed instance_json (codes "instances") key i
unfolding instance_json
instance-IsItem i =
    dict-IsItem keyed instance_json (codes "instances") key i.key (rest (instance_fields i)) i refl
      (
        text-Accepted keyed _ _,
        (
          boolean-Accepted keyed _ _,
          (
            boolean-Accepted keyed _ _,
            (integer-Accepted keyed _ _, (integer-Accepted keyed _ _, tt)),
          ),
        ),
      )

pub world-Accepted : (is : List WorldBossInstance) → Accepted keyed [] (world_projection is)
unfolding world_projection key_field
world-Accepted is =
    dict-Accepted keyed [] (world_fields is)
      (keyed_array-Accepted keyed instance_json (codes "instances") key refl instance-IsItem is, tt)

queue-IsItem : (q : ProfessionQueueEntry) → IsItem keyed queue_json (codes "queue") key q
unfolding queue_json
queue-IsItem q =
    dict-IsItem keyed queue_json (codes "queue") key q.action_key (rest (queue_fields q)) q refl
      (integer-Accepted keyed _ _, tt)

recipe-IsItem : (r : ProfessionRecipe) → IsItem keyed recipe_json (codes "recipes") key r
unfolding recipe_json
recipe-IsItem r =
    dict-IsItem keyed recipe_json (codes "recipes") key r.key (rest (recipe_fields r)) r refl (
      integer-Accepted keyed _ _,
      (
        text-Accepted keyed _ _,
        (
          integer-Accepted keyed _ _,
          (amounts-Accepted keyed _ _, (boolean-Accepted keyed _ _, tt)),
        ),
      ),
    )

pub profession-Accepted : (s : ProfessionState) → Accepted keyed [] (profession_projection s)
unfolding profession_projection key_field
profession-Accepted s = dict-Accepted keyed [] (profession_fields s) (
  text-Accepted keyed _ _,
  (
    keyed_array-Accepted keyed queue_json (codes "queue") key refl queue-IsItem s.queue,
    (
      integer-Accepted keyed _ _,
      (
        keyed_array-Accepted keyed recipe_json (codes "recipes") key refl recipe-IsItem s.recipes,
        (amounts-Accepted keyed _ _, (text-Accepted keyed _ _, tt)),
      ),
    ),
  ),
)

entry-IsItem : (e : BossEntryState) → IsItem keyed entry_json (codes "entries") key e
unfolding entry_json key_field
entry-IsItem e =
    dict-IsItem keyed entry_json (codes "entries") key e.key (rest (entry_fields e)) e refl (
      text-Accepted keyed _ _,
      (
        integer-Accepted keyed _ _,
        (
          optional_number-Accepted keyed _ _,
          (
            optional_text-Accepted keyed _ _,
            (
              optional_text-Accepted keyed _ _,
              (
                array-Accepted keyed difficulty_json (codes "entries.difficultyOptions") refl
                    (difficulty-Accepted (codes "entries.difficultyOptions")) e.difficulty_options,
                tt,
              ),
            ),
          ),
        ),
      ),
    )

slot-IsItem : (s : EquipmentSlot) → IsItem keyed slot_json (codes "equipment") key s
unfolding slot_json
slot-IsItem s =
    dict-IsItem keyed slot_json (codes "equipment") key s.key (rest (slot_fields s)) s refl
      (integer-Accepted keyed _ _, (boolean-Accepted keyed _ _, tt))

potion-Accepted : (path : Text) (s : BossState) → Accepted keyed path (dict (potion_fields s))
potion-Accepted path s =
    dict-Accepted keyed path (potion_fields s)
      (optional_text-Accepted keyed _ _, (optional_text-Accepted keyed _ _, tt))

module _ (format_decimal : ℕ → Text) where
  affix-IsItem : (a : BossAffix) → IsItem keyed (affix_json format_decimal) (codes "affixes") key a
  unfolding affix_json
  affix-IsItem a =
      dict-IsItem keyed (affix_json format_decimal) (codes "affixes") key a.key
        (rest (affix_fields format_decimal a)) a refl (text-Accepted keyed _ _, tt)

  preview-Accepted :
      (path : Text) (p : Preview) → Accepted keyed path (preview_json format_decimal p)
  unfolding preview_json
  preview-Accepted path p = dict-Accepted keyed path (preview_fields format_decimal p) (
    boolean-Accepted keyed _ _,
    (text-Accepted keyed _ _, (text-Accepted keyed _ _, (text-Accepted keyed _ _, tt))),
  )

  selection-Accepted :
      (s : BossSelection) → Accepted keyed (codes "selection") (selection_json format_decimal s)
  unfolding selection_json key_field
  selection-Accepted s =
      dict-Accepted keyed (codes "selection") (selection_fields format_decimal s) (
        text-Accepted keyed _ _,
        (
          difficulty-Accepted _ s.action.difficulty,
          (
            array-Accepted keyed Canonical.text (codes "selection.skills") refl
                (text-Accepted keyed (codes "selection.skills")) s.action.selected_skill_keys,
            (
              text-Accepted keyed _ _,
              (
                optional_text-Accepted keyed _ _,
                (
                  text-Accepted keyed _ _,
                  (boolean-Accepted keyed _ _, (preview-Accepted _ s.preview, tt)),
                ),
              ),
            ),
          ),
        ),
      )

  chosen-Accepted : (o : Option BossSelection) → AllAccepted keyed [] (chosen_json format_decimal o)
  chosen-Accepted none = tt
  chosen-Accepted (some s) = (selection-Accepted s, tt)

  pub boss-Accepted :
      (s : BossState) (o : Option BossSelection)
      → Accepted keyed [] (boss_projection format_decimal s o)
  unfolding boss_projection key_field
  boss-Accepted s o = dict-Accepted keyed [] (boss_fields format_decimal s o) (
    keyed_array-Accepted keyed entry_json (codes "entries") key refl entry-IsItem s.entries,
    (
      integer-Accepted keyed _ _,
      (
        integer-Accepted keyed _ _,
        (
          keyed_array-Accepted keyed slot_json (codes "equipment") key refl slot-IsItem s.equipment,
          (
            potion-Accepted _ s,
            (
              keyed_array-Accepted keyed (affix_json format_decimal) (codes "affixes") key refl
                  affix-IsItem s.affixes,
              chosen-Accepted o,
            ),
          ),
        ),
      ),
    ),
  )

candidate-IsItem :
    (c : RewardCandidate) → IsItem reward_keyed candidate_json (codes "candidates") key c
unfolding candidate_json
candidate-IsItem c =
    dict-IsItem reward_keyed candidate_json (codes "candidates") key c.identifier
      (rest (candidate_fields c)) c refl
      (
        text-Accepted reward_keyed _ _,
        (
          boolean-Accepted reward_keyed _ _,
          (
            boolean-Accepted reward_keyed _ _,
            (
              integer-Accepted reward_keyed _ _,
              (integer-Accepted reward_keyed _ _, (boolean-Accepted reward_keyed _ _, tt)),
            ),
          ),
        ),
      )

pub reward-Accepted : (s : RewardState) → Accepted reward_keyed [] (projection s)
unfolding projection key_field
reward-Accepted s = dict-Accepted reward_keyed [] (reward_fields s) (
  keyed_array-Accepted reward_keyed candidate_json (codes "candidates") key refl candidate-IsItem
      s.candidates,
  (boolean-Accepted reward_keyed _ _, tt),
)

pub idle-Accepted : (s : IdleSummary) (b : Bool) → Accepted keyed [] (dict (idle_fields s b))
idle-Accepted s b =
    dict-Accepted keyed [] (idle_fields s b)
      (optional_number-Accepted keyed _ _, (boolean-Accepted keyed _ _, tt))
