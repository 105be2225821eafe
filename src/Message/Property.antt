-- ===== src/Message/Property.antt =====
-- broker/core/message/identifier.go: the property codes, of a byte each, but for those that `Reason`
-- has.
use gofly_mqttv.Base.{ℕ}

abbrev pub load_format_description : ℕ
load_format_description = 0x01

abbrev pub message_expiration_time : ℕ
message_expiration_time = 0x02

abbrev pub content_type : ℕ
content_type = 0x03

abbrev pub response_topic : ℕ
response_topic = 0x08

abbrev pub related_data : ℕ
related_data = 0x09

abbrev pub defining_identifiers : ℕ
defining_identifiers = 0x0B

abbrev pub session_expiration_interval : ℕ
session_expiration_interval = 0x11

abbrev pub assign_customer_identifiers : ℕ
assign_customer_identifiers = 0x12

abbrev pub server_survival_time : ℕ
server_survival_time = 0x13

abbrev pub authentication_method : ℕ
authentication_method = 0x15

abbrev pub authentication_data : ℕ
authentication_data = 0x16

abbrev pub request_problem_information : ℕ
request_problem_information = 0x17

abbrev pub delay_wills : ℕ
delay_wills = 0x18

abbrev pub request_response_information : ℕ
request_response_information = 0x19

abbrev pub solicited_message : ℕ
solicited_message = 0x1A

abbrev pub server_reference : ℕ
server_reference = 0x1C

abbrev pub maximum_quantity_received : ℕ
maximum_quantity_received = 0x21

abbrev pub maximum_length_of_topic_alias : ℕ
maximum_length_of_topic_alias = 0x22

abbrev pub theme_alias : ℕ
theme_alias = 0x23

abbrev pub maximum_qos : ℕ
maximum_qos = 0x24

abbrev pub preserve_property_availability : ℕ
preserve_property_availability = 0x25

abbrev pub maximum_message_length : ℕ
maximum_message_length = 0x27

abbrev pub wildcard_subscription_availability : ℕ
wildcard_subscription_availability = 0x28

abbrev pub availability_of_subscription_identifiers : ℕ
availability_of_subscription_identifiers = 0x29

abbrev pub shared_subscription_availability : ℕ
shared_subscription_availability = 0x2A
