-- ===== src/Tests/Raw.antt =====
-- The raw message interface at a concrete input.
use picotls.Prelude.{◌≡◌, some, List, [], ◌∷◌, arith}
use picotls.Raw.{Pushed, message_epoch, push_raw_messages}
use picotls.Raw.Epochs.{Rising, by_epoch, holding, push_raw_messages-by_epoch}

-- A client with early data: two ClientHello messages, EndOfEarlyData and Finished.
abbrev flight : List Pushed
flight =
    record { enc_epoch = 0; type = 1; body = 5 ∷ [] }
    ∷ record { enc_epoch = 1; type = 1; body = 6 ∷ [] }
    ∷ record { enc_epoch = 1; type = 5; body = [] }
    ∷ record { enc_epoch = 2; type = 20; body = 7 ∷ 8 ∷ [] }
    ∷ []

rising : Rising 0 flight
unfolding message_epoch
rising = (
  omega arith,
  omega arith,
  (omega arith, omega arith, (omega arith, omega arith, (omega arith, omega arith, tt))),
)

push_raw_messages-by_epoch_example :
    push_raw_messages (record { buf = []; epoch_offsets = 0 ∷ 0 ∷ 0 ∷ 0 ∷ 0 ∷ [] }) flight
    ≡ some (
        holding
          (by_epoch 0 flight ∷ by_epoch 1 flight ∷ by_epoch 2 flight ∷ by_epoch 3 flight ∷ []))
push_raw_messages-by_epoch_example = push_raw_messages-by_epoch flight rising
