-- ===== src/ReadDebt/Tests.antt =====
-- Runs of readdebt.rs at concrete inputs.
use websocat.Base.{◌≡◌, refl, none, some, [], ◌∷◌, returns}
use websocat.ReadDebt.{
  silent, drop_message, ZeroMessagesHandling, ReadDebt, ProcessMessageResult, fit, process_message,
}

abbrev fresh : ReadDebt
fresh = record { debt = none; handling = silent; zero_messages = ZeroMessagesHandling.deliver }

abbrev indebted : ReadDebt
indebted = record fresh { debt = some (3 ∷ 4 ∷ []) }

dropping_drops :
    process_message (record fresh { handling = drop_message }) (0 ∷ []) (1 ∷ 2 ∷ [])
    ≡ returns (record {
      after = record fresh { handling = drop_message };
      buf = 0 ∷ [];
      result = ProcessMessageResult.recurse;
    })
unfolding process_message fit
dropping_drops = refl
