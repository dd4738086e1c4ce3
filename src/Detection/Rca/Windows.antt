-- ===== src/Detection/Rca/Windows.antt =====
-- The alert windows: which findings share a digest, and when it is due.
use traceroot.Detection.Rca.{AlertWindow, alert_windows, window_start_for}
use traceroot.Detection.Rca.{m1, m5, m10, m30, h1, h2}
use traceroot.Prelude.{◌≡◌, arith, ◌+◌, ◌≤◌, ◌↔◌, ◌<◌, ℕ}

-- A finding lies in the window that it is filed under; two findings are filed under one window
-- exactly when the second lies in the first one's window.
pub window_start_lem :
    (a : AlertWindow) (ts other : ℕ)
    → (window_start_for ts (alert_windows a) ≤ ts)
      × (ts < window_start_for ts (alert_windows a) + alert_windows a)
      × ((window_start_for other (alert_windows a) ≡ window_start_for ts (alert_windows a)) ↔ (
          (window_start_for ts (alert_windows a) ≤ other)
          × (other < window_start_for ts (alert_windows a) + alert_windows a)))
unfolding window_start_for alert_windows
window_start_lem m1 ts other = ground arith
window_start_lem m5 ts other = ground arith
window_start_lem m10 ts other = ground arith
window_start_lem m30 ts other = ground arith
window_start_lem h1 ts other = ground arith
window_start_lem h2 ts other = ground arith
