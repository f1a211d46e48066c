-- ===== src/Healing/Journal/Tests.antt =====
-- Journals with a heal, with an item that is skipped and with an outcome that is a list.
use febal_automation_script.Prelude.{◌^◌, ◌≡◌, refl, true, Option, none, some, List, [], ◌∷◌}
use febal_automation_script.Prelude.Texts.{codes, text_eq}
use febal_automation_script.Prelude.Int.{pos, ◌*ℤ◌}
use febal_automation_script.Healing.Outcome.{
  Outcome, auto_heal, quarantine, rejected, AuditRow, heal_stats,
}
use febal_automation_script.Healing.Journal.{
  dict_item, text, int, null, list, Fields, Item, HealEntry, returned, raised, items, JournalFile,
  file, parse_heal_journal, parse_items, validate_entry, bounded_chain, rewritten, appended,
  effects_of, audit_row, ingest_entries, ingest_heal_journal, selector_from_chain, apply_rewrite,
}
use febal_automation_script.Healing.Journal.Bounds.{parse_heal_journal-raises}

abbrev heal : Fields
heal = record {
  element_key = text (codes "cart.pay");
  outcome = text (codes "auto_heal");
  confidence = int (pos 1);
  live_match_count = int (pos 1);
  flow_id = null;
  before_chain = null;
  after_chain = list (dict_item (some (codes "#pay")) ∷ []);
}

abbrev journal : JournalFile
journal = file 900 (items (Item.dict heal ∷ Item.other ∷ []))

abbrev poisoned : JournalFile
poisoned = file 900 (items (Item.dict (record heal { outcome = list [] }) ∷ []))

-- A confidence of 10 ^ 309 is an integer that is no float.
abbrev huge : JournalFile
huge = file 900 (items (Item.dict (record heal { confidence = int (pos (10 ^ 309)) }) ∷ []))

huge_raises : parse_heal_journal huge ≡ raised
unfolding parse_heal_journal parse_items validate_entry text_eq
huge_raises = refl

abbrev entry : HealEntry
entry = record {
  element_key = codes "cart.pay";
  outcome = auto_heal;
  confidence = pos 1000;
  before_chain = [];
  after_chain = dict_item (some (codes "#pay")) ∷ [];
  live_match_count = pos 1;
  flow_id = [];
}

journal_is_read : parse_heal_journal journal ≡ returned (entry ∷ [])
unfolding parse_heal_journal parse_items validate_entry bounded_chain text_eq ◌*ℤ◌
journal_is_read = refl

pay_is_rewritten :
    ingest_heal_journal (λ k s. true) "r" "f" journal
    ≡ returned (record {
      rows = audit_row "r" "f" entry ∷ [];
      effects =
          rewritten (codes "cart.pay") (codes "#pay")
          ∷ appended (codes "cart.pay") (dict_item (some (codes "#pay")) ∷ [])
          ∷ [];
      outcomes = auto_heal ∷ [];
    })
unfolding ingest_heal_journal ingest_entries effects_of apply_rewrite selector_from_chain
    parse_heal_journal parse_items validate_entry bounded_chain text_eq ◌*ℤ◌
pay_is_rewritten = refl

parse_heal_journal-raises_example : parse_heal_journal poisoned ≡ raised
parse_heal_journal-raises_example = parse_heal_journal-raises poisoned refl

abbrev row : Outcome → Option Outcome → AuditRow
row outcome reviewed = record {
  element_key = "pay";
  outcome = outcome;
  reviewed_outcome = reviewed;
}

abbrev rows : List AuditRow
rows = row auto_heal none ∷ row quarantine (some rejected) ∷ row quarantine (some rejected) ∷ []

-- Two rejected proposals beside one auto-heal: the false-heal rate is two.
two_false_heals_of_one :
    heal_stats "pay" rows ≡ record { attempts = 3; healed = 1; auto_heals = 1; rejected_heals = 2 }
unfolding heal_stats
two_false_heals_of_one = refl
