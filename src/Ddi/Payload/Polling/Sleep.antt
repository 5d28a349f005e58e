-- ===== src/Ddi/Payload/Polling/Sleep.antt =====
-- The sleep time that a poll answers with.
use up2date_cpp.Base.{ℕ, ◌+◌, ◌*◌, ◌<◌, ◌≡◌, refl, some, [], ◌∷◌, arith}
use up2date_cpp.Base.Int.{pos, int_limit, times, ◌+ℤ◌}
use up2date_cpp.Text.{Text}
use up2date_cpp.Text.Scan.{scan_time, show_onto, scan_int-show_onto}
use up2date_cpp.Outcome.{ok}
use up2date_cpp.Ddi.Payload.Polling.{sleep_milliseconds}

-- h:m:s in decimal
abbrev pub show_time : ℕ → ℕ → ℕ → Text
show_time h m s = show_onto h (b':' ∷ show_onto m (b':' ∷ show_onto s []))

scan_time-show_time : (h m s : ℕ) → scan_time (show_time h m s) ≡ some (pos h, pos m, pos s)
unfolding scan_time
scan_time-show_time h m s =
    rw (scan_int-show_onto h (b':' ∷ show_onto m (b':' ∷ show_onto s [])) refl)
      (rw (scan_int-show_onto m (b':' ∷ show_onto s []) refl) (rw (scan_int-show_onto s [] tt)))

-- A time of h hours, m minutes and s seconds is read as its milliseconds, where these fit an
-- `int`; the numbers need not be below 60 or padded.
pub sleep_milliseconds-show_time :
    (h m s : ℕ)
    → (h * 3600 + m * 60 + s) * 1000 < int_limit
    → sleep_milliseconds (show_time h m s) ≡ ok (pos ((h * 3600 + m * 60 + s) * 1000))
unfolding sleep_milliseconds times ◌+ℤ◌
sleep_milliseconds-show_time h m s fit = rw (scan_time-show_time h m s) (ground arith)
