-- ===== src/Workload/Options.antt =====
-- The properties that core/core_workload.cc reads, and their defaults.
use ycsb_c_cloud.Base.{Str, codes}

abbrev pub tablename_property : Str
tablename_property = codes "table"

abbrev pub tablename_default : Str
tablename_default = codes "usertable"

abbrev pub field_count_property : Str
field_count_property = codes "fieldcount"

abbrev pub field_count_default : Str
field_count_default = codes "10"

abbrev pub field_length_distribution_property : Str
field_length_distribution_property = codes "field_len_dist"

abbrev pub field_length_distribution_default : Str
field_length_distribution_default = codes "constant"

abbrev pub field_length_property : Str
field_length_property = codes "fieldlength"

abbrev pub field_length_default : Str
field_length_default = codes "100"

abbrev pub read_all_fields_property : Str
read_all_fields_property = codes "readallfields"

abbrev pub read_all_fields_default : Str
read_all_fields_default = codes "true"

abbrev pub write_all_fields_property : Str
write_all_fields_property = codes "writeallfields"

abbrev pub write_all_fields_default : Str
write_all_fields_default = codes "false"

abbrev pub read_proportion_property : Str
read_proportion_property = codes "readproportion"

abbrev pub read_proportion_default : Str
read_proportion_default = codes "0.95"

abbrev pub update_proportion_property : Str
update_proportion_property = codes "updateproportion"

abbrev pub update_proportion_default : Str
update_proportion_default = codes "0.05"

abbrev pub insert_proportion_property : Str
insert_proportion_property = codes "insertproportion"

abbrev pub insert_proportion_default : Str
insert_proportion_default = codes "0.0"

abbrev pub scan_proportion_property : Str
scan_proportion_property = codes "scanproportion"

abbrev pub scan_proportion_default : Str
scan_proportion_default = codes "0.0"

abbrev pub readmodifywrite_proportion_property : Str
readmodifywrite_proportion_property = codes "readmodifywriteproportion"

abbrev pub readmodifywrite_proportion_default : Str
readmodifywrite_proportion_default = codes "0.0"

abbrev pub request_distribution_property : Str
request_distribution_property = codes "requestdistribution"

abbrev pub request_distribution_default : Str
request_distribution_default = codes "uniform"

abbrev pub max_scan_length_property : Str
max_scan_length_property = codes "maxscanlength"

abbrev pub max_scan_length_default : Str
max_scan_length_default = codes "1000"

abbrev pub scan_length_distribution_property : Str
scan_length_distribution_property = codes "scanlengthdistribution"

abbrev pub scan_length_distribution_default : Str
scan_length_distribution_default = codes "uniform"

abbrev pub insert_order_property : Str
insert_order_property = codes "insertorder"

abbrev pub insert_order_default : Str
insert_order_default = codes "hashed"

abbrev pub insert_start_property : Str
insert_start_property = codes "insertstart"

abbrev pub insert_start_default : Str
insert_start_default = codes "0"

abbrev pub record_count_property : Str
record_count_property = codes "recordcount"

abbrev pub operation_count_property : Str
operation_count_property = codes "operationcount"
