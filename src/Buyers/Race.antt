-- ===== src/Buyers/Race.antt =====
-- A bonus that internal/user/service.go awards while another call credits the buyer.
use shop_mall.Common.Text.{Text}
