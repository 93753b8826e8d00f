-- ===== src/Witnesses/Contracts.antt =====
-- The validators of contracts/v1 on the messages about one scan.
use loyiha.Base.{◌≡◌, ◌↔◌, refl, ok}
use loyiha.Contracts.Detection.{check_consistency, check_detections, frame_check, frame_by_id}
use loyiha.Contracts.Common.{fits_within}
use loyiha.Contracts.Detection.Consistency.{IsConsistent, check_consistency_iff}
use loyiha.Contracts.Feedback.{check_feedback, check_reviews, check_missed}
use loyiha.Contracts.Feedback.Grounded.{IsGrounded, check_feedback_iff}
use loyiha.Witnesses.Data.{knife_result, knife_feedback}

knife_checked : check_consistency knife_result ≡ ok tt
unfolding check_consistency check_detections frame_check frame_by_id fits_within
knife_checked = refl

feedback_checked : check_feedback knife_feedback ≡ ok tt
unfolding check_feedback check_reviews check_missed
feedback_checked = refl

pub knife-IsConsistent : IsConsistent knife_result
knife-IsConsistent = (check_consistency_iff knife_result).0 knife_checked

pub feedback-IsGrounded : IsGrounded knife_feedback
feedback-IsGrounded = (check_feedback_iff knife_feedback knife-IsConsistent).0 feedback_checked

check_feedback_iff_example : (check_feedback knife_feedback ≡ ok tt) ↔ IsGrounded knife_feedback
check_feedback_iff_example = check_feedback_iff knife_feedback knife-IsConsistent
