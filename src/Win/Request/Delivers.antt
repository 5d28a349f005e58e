-- ===== src/Win/Request/Delivers.antt =====
-- The `while (1)` loop of `do_http_request_ctx` against the pieces that the system has for it.
use up2date_cpp.Base.{
  ℕ, zero, suc, ◌+◌, ◌%◌, ◌^◌, ◌<◌, ◌≡◌, refl, Bool, true, false, Option, none, some, List, [], ◌∷◌,
  length, ltb, arith,
}
use up2date_cpp.Text.{Text}
use up2date_cpp.Outcome.{Result, ok, throw, fault}
use up2date_cpp.Win.Api.{
  buffer, acquired, released, available_asked, read_asked, got, WinHttp, WinHistory, WinState, Jump,
  go, clean_with, thrown, crashed, unfinished, and_then, ◌>>=◌, proceed, note, ◌>>◌, crash,
}
use up2date_cpp.Win.Request.{
  Handlers, handled, handle, ask_available, read_into, continue_if, read_round, next_round,
  receive_loop, dw_size, error_cancelled,
}

-- The pieces in order, each as long as its buffer at most, until no more data is available.
pub data Sends (win : WinHttp) : WinHistory → List Text → Type 0 where
  sends_none : {h : WinHistory} → win.available h ≡ got 0 → Sends win h []
  sends_piece :
      {h : WinHistory} {n : ℕ} {piece : Text} {pieces : List Text}
      → win.available h ≡ got (suc n)
      → win.read (acquired buffer ∷ available_asked ∷ h) dw_size ≡ got piece
      → ltb ((suc n + 1) % 2 ^ 32) (length piece) ≡ false
      → Sends win
          (released buffer ∷ read_asked dw_size ∷ acquired buffer ∷ available_asked ∷ h)
          pieces
      → Sends win h (piece ∷ pieces)

module _ {C : Type 0} (receiver : Text → C → Result Bool × C) where
  abbrev pub delivered : (C → Result ℕ × C) → Result Bool × C → Result ℕ × C
  delivered rest (ok true, c) = rest c
  delivered rest (ok false, c) = (ok error_cancelled, c)
  delivered rest (throw e, c) = (throw e, c)
  delivered rest (fault x, c) = (fault x, c)

  -- The pieces are handed to the receiver in order, until it refuses one or throws.
  abbrev pub deliver : List Text → C → Result ℕ × C
  deliver [] c = (ok 0, c)
  deliver (piece ∷ pieces) c = delivered (deliver pieces) (receiver piece c)

-- How a statement ended, and the context that it left.
abbrev pub seen : {C : Type 0} → Jump ℕ × WinState C → Option (Result ℕ) × C
seen (go code, t) = (some (ok code), t.context)
seen (clean_with code, t) = (some (ok code), t.context)
seen (thrown e, t) = (some (throw e), t.context)
seen (crashed x, t) = (some (fault x), t.context)
seen (unfinished, t) = (none, t.context)

abbrev pub shown : {C : Type 0} → Result ℕ × C → Option (Result ℕ) × C
shown (r, c) = (some r, c)

module _ (win : WinHttp) {C : Type 0} where
  ask_available_lem :
      (s : WinState C) (n : ℕ)
      → win.available s.history ≡ got n
      → ask_available win s ≡ (go n, record s { history = available_asked ∷ s.history })
  unfolding ask_available ◌>>=◌ note proceed
  ask_available_lem s n e = rw e refl

  module _ (handlers : Handlers C) where
    abbrev after_piece : WinState C → C → WinState C
    after_piece s c = record s {
      history = released buffer ∷ read_asked dw_size ∷ acquired buffer ∷ s.history;
      context = c;
    }

    abbrev reading : WinState C → WinState C
    reading s = record s { history = read_asked dw_size ∷ acquired buffer ∷ s.history }

    abbrev round_end : WinState C → Result Bool × C → Jump (Option ℕ) × WinState C
    round_end s (ok true, c) = (go none, after_piece s c)
    round_end s (ok false, c) = (go (some error_cancelled), after_piece s c)
    round_end s (throw e, c) = (thrown e, record (reading s) { context = c })
    round_end s (fault x, c) = (crashed x, record (reading s) { context = c })

    round_end_lem :
        (s : WinState C) (r : Result Bool × C)
        → and_then
            (and_then (handled r (reading s)) (continue_if win handlers))
            (λ broken. note (released buffer) >> proceed broken)
          ≡ round_end s r
    unfolding ◌>>=◌ note proceed
    round_end_lem s (ok true, c) = refl
    round_end_lem s (ok false, c) = refl
    round_end_lem s (throw e, c) = refl
    round_end_lem s (fault x, c) = refl

    read_round_lem :
        (s : WinState C) (n : ℕ) (piece : Text)
        → win.read (acquired buffer ∷ s.history) dw_size ≡ got piece
        → ltb ((n + 1) % 2 ^ 32) (length piece) ≡ false
        → read_round win handlers n s ≡ round_end s (handlers.content_receiver piece s.context)
    unfolding read_round ◌>>=◌ note proceed read_into handle crash
    read_round_lem s n piece e inside =
        rw e (rw inside (round_end_lem s (handlers.content_receiver piece s.context)))

    loop_step :
        (fuel : ℕ) (pieces : List Text) (s : WinState C) (r : Result Bool × C)
        → ((c : C)
            → seen (receive_loop win handlers fuel (after_piece s c))
              ≡ shown (deliver handlers.content_receiver pieces c))
        → seen (and_then (round_end s r) (next_round win handlers (receive_loop win handlers fuel)))
          ≡ shown (delivered handlers.content_receiver (deliver handlers.content_receiver pieces) r)
    unfolding proceed
    loop_step fuel pieces s (ok true, c) later = later c
    loop_step fuel pieces s (ok false, c) later = refl
    loop_step fuel pieces s (throw e, c) later = refl
    loop_step fuel pieces s (fault x, c) later = refl

    -- With more rounds than pieces the loop ends, and it hands the pieces over like `deliver`: the
    -- pieces in order, until the receiver refuses one (the error is then ERROR_CANCELLED), throws
    -- or faults; the error is 0 where it takes all of them. The pieces fit into their buffers.
    pub receive_loop-deliver :
        (fuel : ℕ) (pieces : List Text) (s : WinState C)
        → length pieces < fuel
        → Sends win s.history pieces
        → seen (receive_loop win handlers fuel s)
          ≡ shown (deliver handlers.content_receiver pieces s.context)
    unfolding receive_loop ◌>>=◌
    receive_loop-deliver zero pieces s h sends = absurd (omega (arith, h))
    receive_loop-deliver (suc fuel) [] s h (sends_none e) =
        rw (ask_available_lem s 0 e) (unfold proceed in refl)
    receive_loop-deliver (suc fuel) (piece ∷ pieces) s h (sends_piece {n} e r inside later) =
        let asked = record s { history = available_asked ∷ s.history } in
        rw (ask_available_lem s (suc n) e) (
          rw (read_round_lem asked (suc n) piece r inside) (
            loop_step fuel pieces asked (handlers.content_receiver piece s.context) (λ c.
              receive_loop-deliver fuel pieces (after_piece asked c) (omega (arith, h)) later)))
